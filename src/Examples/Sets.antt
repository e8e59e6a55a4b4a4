-- ===== src/Examples/Sets.antt =====
-- The community sets of nest/a-set.c at small inputs.
use bird.Common.{ℕ, ◌≡◌, refl, some, [], ◌∷◌, length, get_elem?, replicate, length-replicate}
use bird.ASet.{Adata, words_of, Lcomm}
use bird.ASet.Int.{words_contain, int_set_del}
use bird.ASet.Int.Members.{IsDistinct}
use bird.ASet.Int.Distinct.{int_set_del-stale}
use bird.ASet.Ec.{pairs_contain}
use bird.ASet.Ec.Members as Pairs
use bird.ASet.Lc.Members as Items
use bird.ASet.Ec.Members.{ec_set_contains-add, ec_set_contains-del}
use bird.ASet.Lc.{items_contain, lc_match}
use bird.ASet.Lc.Members.{same_lc, lc_set_contains-add, lc_set_contains-del}

-- Fresh memory that is full of nines.
abbrev nines : ℕ → Adata
nines n = replicate n 9

nines-length : (n : ℕ) → length (nines n) ≡ n
nines-length n = length-replicate n 9

abbrev three : Adata
three = 30 ∷ 10 ∷ 20 ∷ []

three-IsDistinct : IsDistinct three
unfolding words_contain
three-IsDistinct = (refl, (refl, (refl, tt)))

-- Deleting 1 from 1, 2, 1 gives 2 and a nine.
int_set_del-stale_example :
    get_elem? (words_of (int_set_del nines (some (1 ∷ 2 ∷ 1 ∷ [])) 1)) 1 ≡ some 9
unfolding words_contain
int_set_del-stale_example = int_set_del-stale nines [] (2 ∷ 1 ∷ []) 1 refl

-- Route target 1:1 and a non-transitive one.
abbrev two_ecs : Adata
two_ecs = 0x00020001 ∷ 1 ∷ 0x40020001 ∷ 2 ∷ []

two_ecs-IsDistinct : Pairs.IsDistinct two_ecs
unfolding pairs_contain
two_ecs-IsDistinct = (refl, (refl, tt))

abbrev two_lcs : Adata
two_lcs = 1 ∷ 2 ∷ 3 ∷ 4 ∷ 5 ∷ 6 ∷ []

two_lcs-IsDistinct : Items.IsDistinct two_lcs
unfolding items_contain lc_match
two_lcs-IsDistinct = (refl, (refl, tt))

abbrev first_lc : Lcomm
first_lc = record { asn = 1; ldp1 = 2; ldp2 = 3 }

abbrev second_lc : Lcomm
second_lc = record { asn = 4; ldp1 = 5; ldp2 = 6 }
