-- ===== src/Examples/Ids.antt =====
-- The map of IDs at a small size.
use bird.Common.{ℕ, ◌≡◌, refl, true, some, [], ◌∷◌, arith}
use bird.Idm.{
  Idm, bit, set_bit, clear_bit, u32_cto, idm_init, find_from, expand, found, idm_alloc, idm_free,
  in_use,
}
use bird.Idm.Invariant.{IsValid, init-IsValid}
use bird.Idm.Alloc.{IsAllocated, idm_alloc_lem}
use bird.Idm.Reach.{holds, without, IsReachable, Implements, allocated, IsReachable-Implements}

abbrev one_id : Idm
one_id = record { words = 3 ∷ []; pos = 0; used = 2; size = 1 }

abbrev two_ids : Idm
two_ids = record { words = 7 ∷ []; pos = 0; used = 3; size = 1 }

abbrev second_id : Idm
second_id = record { words = 5 ∷ []; pos = 0; used = 2; size = 1 }

first_alloc : idm_alloc (idm_init 1) ≡ some (one_id, 1)
unfolding idm_alloc idm_init found find_from u32_cto set_bit
first_alloc = refl

second_alloc : idm_alloc one_id ≡ some (two_ids, 2)
unfolding idm_alloc found find_from u32_cto set_bit
second_alloc = refl

first_free : idm_free two_ids 1 ≡ some second_id
unfolding idm_free bit clear_bit
first_free = refl

-- A full map of one word doubles.
grown_alloc :
    idm_alloc (record { words = 0xffffffff ∷ []; pos = 0; used = 32; size = 1 })
    ≡ some (record { words = 0xffffffff ∷ 1 ∷ []; pos = 1; used = 33; size = 2 }, 32)
unfolding idm_alloc found find_from u32_cto set_bit expand
grown_alloc = refl

new-IsValid : IsValid (idm_init 1)
new-IsValid = init-IsValid 1 (omega arith) (omega arith)

one_id-IsValid : IsValid one_id
unfolding idm_init
one_id-IsValid = (allocated (idm_init 1) one_id 1 new-IsValid (omega arith) first_alloc).valid

id_1_in_use : in_use one_id 1 ≡ true
unfolding in_use bit
id_1_in_use = refl

id_1_held : holds (2 ∷ 1 ∷ []) 1 ≡ true
unfolding holds
id_1_held = refl

idm_alloc_lem_example :
    (m : Idm) × (id : ℕ) × (idm_alloc one_id ≡ some (m, id)) × IsAllocated one_id m id
idm_alloc_lem_example = idm_alloc_lem one_id one_id-IsValid (omega arith)

two_then_one : IsReachable second_id (without 1 (2 ∷ 1 ∷ []))
unfolding idm_init
two_then_one =
    let created = IsReachable.created 1 (omega arith) (omega arith) in
    let one = IsReachable.alloc one_id 1 created (omega arith) first_alloc in
    let two = IsReachable.alloc two_ids 2 one (omega arith) second_alloc in
    IsReachable.free second_id 1 two id_1_held first_free

IsReachable-Implements_example : Implements second_id (without 1 (2 ∷ 1 ∷ []))
IsReachable-Implements_example = IsReachable-Implements two_then_one
