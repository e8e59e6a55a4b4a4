-- ===== src/Bgp/Decision.antt =====
-- The comparison of BGP routes in proto/bgp/attrs.c. On a path attribute that as_path_valid
-- refuses, and that no update brings in, the source stops; the functions then give 0 and the
-- route's own number. The answer of rte_stale is cached in the source.
use bird.Common.{
  ℕ, zero, suc, ◌+◌, ◌-◌, ◌*◌, ◌==◌, Bool, true, false, ◌&&◌, ◌||◌, not, List, [], ◌∷◌, length,
  Option, none, some, if◌then◌else◌, drop, leb, ltb, take, ◌!=◌, ◌^◌,
}
use bird.Common.Word.{u64}
use bird.ASet.Int.{int_set_contains}
use bird.AsPath.Queries.{as_path_getlen, as_path_get_first_regular, found}
use bird.Rt.{Rte}
use bird.Bgp.{
  BgpOf, BgpProto, bgp_attr, data_or, u_ptr, has_flag, set_flag, ref_suppressed, ref_stale,
  ref_not_stale, ba_origin, ba_as_path, ba_multi_exit_disc, ba_local_pref, ba_community,
  ba_originator_id, ba_cluster_list, ba_aigp,
}

abbrev pub one_if : Bool → ℕ
one_if true = 1
one_if false = 0

abbrev pub own_as : BgpProto → ℕ
own_as p = if p.cf.confederation == 0 then p.local_as else p.cf.confederation

unfoldable pub bgp_get_neighbor : BgpOf → Rte → ℕ
bgp_get_neighbor bgp r =
    let own = own_as (bgp r.src.proto) in
    elim (bgp_attr r ba_as_path) [
      | none ↦ own
      | some e ↦ elim (as_path_get_first_regular (u_ptr e)) [ found n ↦ n | _ ↦ own ]
    ]

abbrev pub rte_resolvable : Rte → Bool
rte_resolvable r = r.attrs.dest != 3

-- Whether the route carries the community BGP_COMM_LLGR_STALE.
abbrev pub llgr_stale : Rte → Bool
llgr_stale r = elim (bgp_attr r ba_community) [
  | none ↦ false
  | some a ↦ int_set_contains (some (u_ptr a)) (2 ^ 32 - 65530)
]

-- The answer, and the route with it in its flags.
unfoldable pub rte_stale : Rte → Bool × Rte
rte_stale r =
    if has_flag r.pflags ref_stale
    then (true, r)
    else if has_flag r.pflags ref_not_stale
    then (false, r)
    else if llgr_stale r
    then (true, record r { pflags = set_flag r.pflags ref_stale })
    else (false, record r { pflags = set_flag r.pflags ref_not_stale })

-- The loop of bgp_aigp_get_tlv, from a position to the bytes behind a type and a length. It ends
-- at a length below 3, which bgp_aigp_valid refuses.
unfoldable pub aigp_get_from : ℕ → ℕ → List ℕ → Option (List ℕ)
aigp_get_from zero type pos = none
aigp_get_from (suc fuel) type (ptype ∷ hi ∷ lo ∷ rest) =
    let next = aigp_get_from fuel type (drop (hi * 256 + lo - 3) rest) in
    if ptype == type then some rest else if ltb (hi * 256 + lo) 3 then none else next
aigp_get_from (suc fuel) type _ = none

unfoldable pub bgp_aigp_get_tlv : List ℕ → ℕ → Option (List ℕ)
bgp_aigp_get_tlv ad type = aigp_get_from (length ad) type ad

-- get_u64, of the first eight bytes.
abbrev pub get_u64 : ℕ → List ℕ → ℕ
get_u64 acc [] = acc
get_u64 acc (b ∷ bytes) = get_u64 (acc * 256 + b) bytes

abbrev pub aigp_max : ℕ
aigp_max = 2 ^ 64 - 1

-- What bgp_total_aigp_metric_ adds for the way to the next hop.
unfoldable pub aigp_step : Rte → ℕ
aigp_step r =
    let step =
      if not (rte_resolvable r) || leb (2 ^ 31) r.attrs.igp_metric
      then aigp_max
      else r.attrs.igp_metric in
    if step == 0 then 1 else step

unfoldable pub bgp_total_aigp_metric : Rte → ℕ
bgp_total_aigp_metric r = elim (bgp_attr r ba_aigp) [
  | none ↦ aigp_max
  | some a ↦ elim (bgp_aigp_get_tlv (u_ptr a) 1) [
    | none ↦ aigp_max
    | some b ↦
        let aigp = get_u64 0 (take 8 b) in
        let metric = u64 (aigp + aigp_step r) in if ltb metric aigp then aigp_max else metric
  ]
]

-- AS_PATH_MAXLEN where there is no path.
unfoldable pub path_length : Rte → ℕ
path_length r = elim (bgp_attr r ba_as_path) [
  | none ↦ 10000
  | some e ↦ elim (as_path_getlen (u_ptr e)) [ none ↦ 0 | some n ↦ n ]
]

abbrev pub cluster_length : Rte → ℕ
cluster_length r = elim (bgp_attr r ba_cluster_list) [ none ↦ 0 | some e ↦ length (u_ptr e) ]

-- The numbers n and o of bgp_rte_better, in its order.
-- The smaller number wins, and equal ones leave the choice to what follows.
abbrev pub less_first : ℕ → ℕ → Bool → Bool
less_first n o rest = if ltb n o then true else if ltb o n then false else rest

abbrev pub more_first : ℕ → ℕ → Bool → Bool
more_first n o rest = less_first o n rest

abbrev pub suppressed : Rte → ℕ
suppressed r = one_if (has_flag r.pflags ref_suppressed)

abbrev pub origin : Rte → ℕ
origin r = data_or (bgp_attr r ba_origin) 2

module _ (bgp : BgpOf) where
  abbrev pub local_pref : Rte → ℕ
  local_pref r = data_or (bgp_attr r ba_local_pref) (bgp r.src.proto).cf.default_local_pref

  abbrev pub med : Rte → ℕ
  med r = data_or (bgp_attr r ba_multi_exit_disc) (bgp r.src.proto).cf.default_med

  abbrev pub igp : Rte → ℕ
  igp r = if (bgp r.src.proto).cf.igp_metric then r.attrs.igp_metric else 0

  abbrev pub router_id : Rte → ℕ
  router_id r = data_or (bgp_attr r ba_originator_id) (bgp r.src.proto).remote_id

  -- The ends of the comparison: router identifiers, cluster lists and addresses.
  unfoldable pub better_peer : Rte → Rte → Bool
  better_peer new old =
      let p = bgp new.src.proto in
      let q = bgp old.src.proto in
      if (p.cf.prefer_older || q.cf.prefer_older)
        && (not p.is_internal && router_id new != router_id old)
      then false
      else less_first (router_id new) (router_id old)
          (less_first (cluster_length new) (cluster_length old) (ltb p.remote_ip q.remote_ip))

  -- From the MED on.
  unfoldable pub better_med : Rte → Rte → Bool
  better_med new old =
      let p = bgp new.src.proto in
      let q = bgp old.src.proto in
      let rest =
        less_first p.is_interior q.is_interior
          (less_first (igp new) (igp old) (better_peer new old)) in
      if p.cf.med_metric || q.cf.med_metric || bgp_get_neighbor bgp new == bgp_get_neighbor bgp old
      then less_first (med new) (med old) rest
      else rest

  -- From the length of the path on.
  unfoldable pub better_path : Rte → Rte → Bool
  better_path new old =
      let p = bgp new.src.proto in
      let q = bgp old.src.proto in
      let rest = less_first (origin new) (origin old) (better_med new old) in
      if p.cf.compare_path_lengths || q.cf.compare_path_lengths
      then less_first (path_length new) (path_length old) rest
      else rest

  unfoldable pub bgp_rte_better : Rte → Rte → Bool
  bgp_rte_better new old = less_first (suppressed new) (suppressed old) (
      more_first (one_if (rte_resolvable new)) (one_if (rte_resolvable old)) (
        less_first (one_if (rte_stale new).0) (one_if (rte_stale old).0) (
          more_first (local_pref new) (local_pref old) (
            less_first (bgp_total_aigp_metric new) (bgp_total_aigp_metric old)
              (better_path new old)))))

  unfoldable pub bgp_rte_mergable : Rte → Rte → Bool
  bgp_rte_mergable pri sec =
      let p = bgp pri.src.proto in
      let q = bgp sec.src.proto in
      let same_path =
        not (p.cf.compare_path_lengths || q.cf.compare_path_lengths)
        || path_length pri == path_length sec in
      let compares_med =
        p.cf.med_metric
        || q.cf.med_metric
        || bgp_get_neighbor bgp pri == bgp_get_neighbor bgp sec in
      (suppressed pri == suppressed sec)
      && ((one_if (rte_resolvable pri) == one_if (rte_resolvable sec))
          && ((one_if (rte_stale pri).0 == one_if (rte_stale sec).0)
              && ((local_pref pri == local_pref sec)
                  && (same_path
                      && ((origin pri == origin sec)
                          && ((not compares_med || med pri == med sec)
                              && ((p.is_interior == q.is_interior) && (igp pri == igp sec))))))))
