-- ===== src/Babel/Feasibility.antt =====
-- The feasibility distances of proto/babel/babel.c: sequence numbers, the feasibility condition,
-- and what an outgoing update notes.
use mathlib.Core.Path.{subst}
use bird.Common.{
  ℕ, ◌+◌, ◌≤◌, ◌<◌, ◌≡◌, ◌≢◌, ◌==◌, refl, ap, sym, ◌∙◌, true, false, ◌&&◌, ◌||◌, Bool-cases,
  Option-cases, inl, inr, ◌⊎◌, arith, List, [], ◌∷◌, ◌++◌, Option, none, some, ◌^◌, ltb,
}
use bird.Common.Word.{u16}
use bird.Babel.{
  Source, Entry, infinity, ge_mod64k, gt_mod64k, babel_is_feasible, babel_get_source,
  babel_find_source,
}
use bird.Babel.Update.{note_sent, put_source, babel_send_entry}

-- Sequence numbers of 16 bits: every number is at least itself and below the next 32767, no number
-- is greater than another that is at least the first, and the order does not change when both are
-- moved.
pub gt_mod64k_lem :
    (a b d k : ℕ)
    → a < 2 ^ 16
    → b < 2 ^ 16
    → 0 < d
    → d < 2 ^ 15
    → (ge_mod64k a a ≡ true)
      × (gt_mod64k (u16 (a + d)) a ≡ true)
      × ((gt_mod64k a b && ge_mod64k b a) ≡ false)
      × (ge_mod64k (u16 (a + k)) (u16 (b + k)) ≡ ge_mod64k a b)
gt_mod64k_lem a b d k p q x y = (ground arith, ground arith, ground arith, ground arith)

-- What is at least as good a distance: the sequence number is newer, or it is equal and the
-- metric is no greater.
abbrev pub NoWorse : Source → Source → Type 0
NoWorse s t = (gt_mod64k s.seqno t.seqno ≡ true) ⊎ ((s.seqno ≡ t.seqno) × (s.metric ≤ t.metric))

-- The same for sources that may be missing: one that was there does not go.
abbrev pub NotWorse : Option Source → Option Source → Type 0
NotWorse o none = Unit
NotWorse none (some s) = ⊥
NotWorse (some t) (some s) = NoWorse t s

note_better :
    (s : Source) (seqno metric : ℕ)
    → (gt_mod64k seqno s.seqno || (seqno == s.seqno && ltb metric s.metric)) ≡ true
    → (gt_mod64k seqno s.seqno ≡ true) ⊎ ((seqno ≡ s.seqno) × (metric ≤ s.metric))
note_better s seqno metric e = elim (Bool-cases (gt_mod64k seqno s.seqno)) [
  | inl g ↦ inl g
  | inr g ↦ inr (ground arith, ground arith)
]

note_sent_lem :
    (now : ℕ) (s : Source) (seqno metric : ℕ)
    → let t = note_sent now s seqno metric in NoWorse t s × (t.router_id ≡ s.router_id)
unfolding note_sent
note_sent_lem now s seqno metric =
    elim (Bool-cases (gt_mod64k seqno s.seqno || (seqno == s.seqno && ltb metric s.metric))) [
      | inl e ↦ rw (note_sent, e) (note_better s seqno metric e, refl)
      | inr e ↦ rw (note_sent, e) (inr (refl, omega arith), refl)
    ]

note_sent-infeasible :
    (now : ℕ) (s : Source) (seqno metric other : ℕ)
    → seqno < 2 ^ 16
    → s.seqno < 2 ^ 16
    → metric ≤ other
    → other < infinity
    → babel_is_feasible (some (note_sent now s seqno metric)) seqno other ≡ false
unfolding note_sent babel_is_feasible
note_sent-infeasible now s seqno metric other p q l f = ground arith

find-put_source :
    (t s : Source) (ss : List Source)
    → babel_find_source ss t.router_id ≡ some s
    → babel_find_source (put_source t ss) t.router_id ≡ some t
unfolding babel_find_source put_source
find-put_source t s [] e = ground arith
find-put_source t s (q ∷ ss) e = ground (arith, find-put_source t s ss)

find-put_other_source :
    (t : Source) (ss : List Source) (id : ℕ)
    → (t.router_id == id) ≡ false
    → babel_find_source (put_source t ss) id ≡ babel_find_source ss id
unfolding babel_find_source put_source
find-put_other_source t [] id e = refl
find-put_other_source t (q ∷ ss) id e = ground (arith, find-put_other_source t ss id)

find-append_source :
    (ss : List Source) (s : Source)
    → babel_find_source ss s.router_id ≡ none
    → babel_find_source (ss ++ s ∷ []) s.router_id ≡ some s
unfolding babel_find_source
find-append_source [] s e = ground arith
find-append_source (q ∷ ss) s e = ground (arith, find-append_source ss s)

find-append_other_source :
    (ss : List Source) (s : Source) (id : ℕ)
    → (s.router_id == id) ≡ false
    → babel_find_source (ss ++ s ∷ []) id ≡ babel_find_source ss id
unfolding babel_find_source
find-append_other_source [] s id e = ground arith
find-append_other_source (q ∷ ss) s id e = ground (arith, find-append_other_source ss s id)

found_id :
    (ss : List Source) (id : ℕ) (s : Source) → babel_find_source ss id ≡ some s → s.router_id ≡ id
unfolding babel_find_source
found_id [] id s e = ground arith
found_id (q ∷ ss) id s e = ground (arith, found_id ss id s)

-- babel_get_source gives the source of the router, and adds nothing for another.
get_source_lem :
    (now : ℕ) (ss : List Source) (id seqno : ℕ)
    → let got = babel_get_source now ss id seqno in
      (babel_find_source got.1 id ≡ some got.0)
      × (got.0.router_id ≡ id)
      × ((k : ℕ) → (id == k) ≡ false → babel_find_source got.1 k ≡ babel_find_source ss k)
      × ((babel_find_source ss id ≡ some got.0) ⊎ (got.0.seqno ≡ seqno))
unfolding babel_get_source
get_source_lem now ss id seqno = elim (Option-cases (babel_find_source ss id)) [
  | inl e ↦
      rw (babel_get_source, e)
        (find-append_source ss _ e, refl, λ k d. find-append_other_source ss _ k d, inr refl)
  | inr (s, e) ↦ rw (babel_get_source, e) (e, found_id ss id s e, λ k d. refl, inl refl)
]

known :
    (now : ℕ) (e : Entry) (s : Source)
    → babel_find_source e.sources e.router_id ≡ some s
    → (babel_get_source now e.sources e.router_id e.seqno).0 ≡ s
unfolding babel_get_source
known now e s d = rw (babel_get_source, d) refl

sent_sources :
    (now own update_seqno changed : ℕ) (e : Entry)
    → e.valid ≢ 0
    → changed ≤ e.updated
    → e.router_id ≢ own
    → let got = babel_get_source now e.sources e.router_id e.seqno in
      (babel_send_entry now own update_seqno changed e).0.sources
      ≡ put_source (note_sent now got.0 e.seqno e.metric) got.1
unfolding babel_send_entry
sent_sources now own update_seqno changed e v u o =
    let o2 : (e.router_id == own) ≡ false = ground (arith, o) in
    let v2 : (e.valid == 0) ≡ false = ground (arith, v) in
    let u2 : ltb e.updated changed ≡ false = ground arith in
    rw (babel_send_entry, o2, v2, u2) (rw o2 refl)

noted_NotWorse :
    (now : ℕ) (e : Entry) (o : Option Source)
    → o
      ≡ some (note_sent now (babel_get_source now e.sources e.router_id e.seqno).0 e.seqno e.metric)
    → NotWorse o (babel_find_source e.sources e.router_id)
noted_NotWorse now e o p =
    let got = babel_get_source now e.sources e.router_id e.seqno in
    let n = note_sent now got.0 e.seqno e.metric in
    elim (Option-cases (babel_find_source e.sources e.router_id)) [
      | inl d ↦ subst (NotWorse o) (sym d) tt
      | inr (s, d) ↦
          let lem = note_sent_lem now got.0 e.seqno e.metric in
          subst (NotWorse o) (sym d)
            (subst (λ t. NotWorse t (some s)) (sym p) (subst (NoWorse n) (known now e s d) lem.0))
    ]

-- When an entry of another router is sent, its source notes the distance: the note is no worse
-- than the one before, and afterwards no update of that router with the sequence number sent and
-- a finite metric not below the one sent is feasible, so that the advertisement does not come
-- back as a better way; the sources of other routers stay. Sequence numbers have 16 bits.
pub send_entry-infeasible :
    (now own update_seqno changed : ℕ) (e : Entry) (other k : ℕ)
    → e.valid ≢ 0
    → changed ≤ e.updated
    → e.router_id ≢ own
    → e.seqno < 2 ^ 16
    → ((s : Source) → babel_find_source e.sources e.router_id ≡ some s → s.seqno < 2 ^ 16)
    → e.metric ≤ other
    → other < infinity
    → e.router_id ≢ k
    → let v = (babel_send_entry now own update_seqno changed e).0 in
      (babel_is_feasible (babel_find_source v.sources e.router_id) e.seqno other ≡ false)
      × NotWorse (babel_find_source v.sources e.router_id) (babel_find_source e.sources e.router_id)
      × (babel_find_source v.sources k ≡ babel_find_source e.sources k)
send_entry-infeasible now own update_seqno changed e other k v u o q h l f d =
    let got = babel_get_source now e.sources e.router_id e.seqno in
    let g = get_source_lem now e.sources e.router_id e.seqno in
    let n = note_sent now got.0 e.seqno e.metric in
    let id : n.router_id ≡ e.router_id = (note_sent_lem now got.0 e.seqno e.metric).1 ∙ g.1 in
    let sent = sent_sources now own update_seqno changed e v u o in
    let there : babel_find_source got.1 n.router_id ≡ some got.0 =
      subst (λ t. babel_find_source got.1 t ≡ some got.0) (sym id) g.0 in
    let put : babel_find_source (put_source n got.1) e.router_id ≡ some n =
      subst (λ t. babel_find_source (put_source n got.1) t ≡ some n) id
        (find-put_source n got.0 got.1 there) in
    let new = ap (λ t. babel_find_source t e.router_id) sent ∙ put in
    let small : got.0.seqno < 2 ^ 16 = elim g.3 [
      | inl x ↦ h got.0 x
      | inr x ↦ subst (λ t. t < 2 ^ 16) (sym x) q
    ] in
    let apart : (e.router_id == k) ≡ false = ground (arith, d) in
    let apart2 : (n.router_id == k) ≡ false = subst (λ t. (t == k) ≡ false) (sym id) apart in
    (
      ap (λ t. babel_is_feasible t e.seqno other) new
          ∙ note_sent-infeasible now got.0 e.seqno e.metric other q small l f,
      noted_NotWorse now e _ new,
      ap (λ t. babel_find_source t k) sent ∙ find-put_other_source n got.1 k apart2 ∙ g.2 k apart,
    )
