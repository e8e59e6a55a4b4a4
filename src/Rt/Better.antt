-- ===== src/Rt/Better.antt =====
-- rte_better of nest/rt-table.c. The protocols' own comparisons, the rte_better hooks of struct
-- proto, are a parameter.
use bird.Common.{ltb, ◌!=◌, Bool, true, false, Option, none, some, if◌then◌else◌}
use bird.Rt.{Proto, Rte, rte_is_filtered}

-- The hook of a protocol, where it has one.
abbrev pub BetterHook : Type 0
BetterHook = Proto → Option (Rte → Rte → Bool)

-- `better(new, old)` if the protocol of the new route has the hook, and 0 if not.
abbrev pub tie_break : BetterHook → Rte → Rte → Bool
tie_break hook new old = elim (hook new.src.proto) [ none ↦ false | some better ↦ better new old ]

-- The comparison of two valid routes.
unfoldable pub valid_better : BetterHook → Rte → Rte → Bool
valid_better hook new old =
    if ltb old.attrs.pref new.attrs.pref
    then true
    else if ltb new.attrs.pref old.attrs.pref
    then false
    else if new.src.proto.proto != old.src.proto.proto
    then ltb old.src.proto.proto new.src.proto.proto
    else tie_break hook new old

unfoldable pub rte_better : BetterHook → Rte → Option Rte → Bool
rte_better hook new none = true
rte_better hook new (some old) =
    if rte_is_filtered old
    then true
    else if rte_is_filtered new
    then false
    else valid_better hook new old
