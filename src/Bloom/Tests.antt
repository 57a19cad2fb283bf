-- ===== src/Bloom/Tests.antt =====
-- The filter on concrete keys.
use trc.Base.{◌≡◌, refl, true, [], ◌∷◌, some, codes, arith}
use trc.Bloom.Filter.{new_bloom_filter, add_hashed, may_contain, BloomFilter}
use trc.Bloom.Sound.{IsValid, add_all, no_false_negative, new_bloom_filter-IsValid}

abbrev filter : BloomFilter
filter = new_bloom_filter 100 7

no_false_negative_example :
    may_contain
      (some (add_all (codes "TB" ∷ codes "TC" ∷ []) (add_hashed (codes "TA") filter)))
      (codes "TA")
    ≡ true
no_false_negative_example =
    no_false_negative (codes "TA") (codes "TB" ∷ codes "TC" ∷ []) filter refl
      (new_bloom_filter-IsValid 100 7 [] (omega arith))

new_bloom_filter-IsValid_example : IsValid (add_all (codes "TA" ∷ []) filter)
new_bloom_filter-IsValid_example = new_bloom_filter-IsValid 100 7 (codes "TA" ∷ []) (omega arith)
