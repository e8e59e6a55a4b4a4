-- ===== src/Examples/Bgp.antt =====
-- BGP routes at concrete inputs.
use bird.Common.{ℕ, suc, ◌≡◌, refl, true, false, List, [], ◌∷◌, none, some, ◌&&◌, not}
use bird.Rt.{Rte, Eattr, data_of, ptr, ChannelLimit, pla_none, pls_initial}
use bird.Rt.Order.{HasBestFirst}
use bird.Rt.Recalculate.{IdMaps, World, rte_recalculate}
use bird.Bgp.{BgpOf, BgpConfig, ea_find, ea__find}
use bird.Bgp.Decision.{
  bgp_rte_better, bgp_rte_mergable, bgp_total_aigp_metric, better_peer, path_length, rte_stale,
}
use bird.Bgp.Order.{IsUniform, bgp_rte_better_lem, by_all}
use bird.Bgp.Best.{bgp_hook, no_recalculate, bgp-HasBestFirst}
use bird.Bgp.Merge.{bgp_rte_mergable_lem}

abbrev config : BgpConfig
config = record {
  default_local_pref = 100;
  default_med = 0;
  compare_path_lengths = true;
  med_metric = true;
  igp_metric = true;
  prefer_older = false;
  deterministic_med = false;
  confederation = 0;
}

-- The protocols differ in their neighbors' identifiers and addresses.
abbrev peers : BgpOf
peers p = record {
  cf = config;
  local_as = 65000;
  is_internal = false;
  is_interior = 0;
  remote_id = p.address;
  remote_ip = p.address;
}

peers-IsUniform : IsUniform peers true
peers-IsUniform = record { paths = λ p. refl; meds = λ p. refl; ages = λ p. refl }

-- An attribute AS_PATH of one sequence with one number.
abbrev path_attr : Eattr
path_attr = record { id = 1026; undef = false; value = ptr (2 ∷ 1 ∷ 0 ∷ 0 ∷ 253 ∷ 233 ∷ []) }

abbrev pref_attr : ℕ → Eattr
pref_attr n = record { id = 1029; undef = false; value = data_of n }

abbrev bgp_route : ℕ → List Eattr → Rte
bgp_route peer eattrs = record {
  src = record { proto = record { address = peer; proto = 7 }; global_id = peer };
  sender = peer;
  attrs = record { address = peer; pref = 100; dest = 0; igp_metric = 10; eattrs = eattrs };
  id = peer;
  flags = record { cow = false; filtered = false; stale = false; discard = false; modify = false };
  pflags = 0;
  lastmod = 0;
}

abbrev plain : ℕ → Rte
plain peer = bgp_route peer (path_attr ∷ [])

abbrev preferred : Rte
preferred = bgp_route 9 (path_attr ∷ pref_attr 200 ∷ [])

-- A local preference beats the identifier of the neighbor.
preferred_wins : bgp_rte_better peers preferred (plain 1) ≡ true
unfolding bgp_rte_better rte_stale bgp_total_aigp_metric ea_find ea__find
preferred_wins = refl

bgp_rte_better_lem_example :
    (bgp_rte_better peers preferred (plain 1) ≡ by_all peers true preferred (plain 1))
    × ((bgp_rte_better peers preferred (plain 1) && bgp_rte_better peers (plain 1) preferred)
        ≡ false)
    × ((bgp_rte_better peers preferred (plain 2)
          && (not (bgp_rte_better peers preferred (plain 1))
              && not (bgp_rte_better peers (plain 1) (plain 2))))
        ≡ false)
bgp_rte_better_lem_example =
    bgp_rte_better_lem peers true peers-IsUniform preferred (plain 1) (plain 2)

plain_merge : bgp_rte_mergable peers (plain 1) (plain 2) ≡ true
unfolding bgp_rte_mergable rte_stale bgp_total_aigp_metric ea_find ea__find path_length
    bird.AsPath.Queries.as_path_getlen bird.AsPath.Queries.getlen_from
plain_merge = refl

same_aigp : bgp_total_aigp_metric (plain 1) ≡ bgp_total_aigp_metric (plain 2)
unfolding bgp_total_aigp_metric ea_find ea__find
same_aigp = refl

bgp_rte_mergable_lem_example :
    (bgp_rte_better peers (plain 1) (plain 2) ≡ better_peer peers (plain 1) (plain 2))
    × (bgp_rte_mergable peers (plain 2) (plain 1) ≡ true)
bgp_rte_mergable_lem_example = bgp_rte_mergable_lem peers (plain 1) (plain 2) plain_merge same_aigp

abbrev ids : IdMaps
ids = record { Hmap = ℕ; first_zero = λ m. m; set = λ m i. suc m; clear = λ m i. m }

abbrev no_limit : ChannelLimit
no_limit = record { limit = 0; action = pla_none; state = pls_initial }

abbrev one_route : World ids
one_route = record {
  channel = record {
    proto = 9;
    stats = record {
      imp_routes = 0;
      filt_routes = 0;
      imp_updates_ignored = 0;
      imp_updates_accepted = 0;
      imp_withdraws_ignored = 0;
      imp_withdraws_accepted = 0;
    };
    rx_limit = no_limit;
    in_limit = no_limit;
    has_in_table = false;
    in_keep_filtered = false;
    is_up = true;
    down = none;
  };
  table = record {
    sorted = false;
    gc_threshold = 10;
    rt_count = 1;
    gc_counter = 0;
    last_rt_change = 0;
    id_map = 2;
  };
  routes = plain 1 ∷ [];
  events = [];
}

bgp-HasBestFirst_example :
    HasBestFirst
      (bgp_hook 7 peers)
      (rte_recalculate ids 5
        (bgp_hook 7 peers)
        no_recalculate
        one_route
        (some preferred)
        preferred.src).routes
bgp-HasBestFirst_example =
    bgp-HasBestFirst 7 peers true peers-IsUniform ids 5 one_route (some preferred) preferred.src
      refl refl tt
