-- ===== src/Bloom/Sound.antt =====
-- The filter has no false negative.
use native.Mathlib.Nat.{mod-lt}
use trc.Base.{
  ℕ, zero, suc, ◌*◌, ◌/◌, length-replicate, ◌+◌, ◌≡◌, ◌<◌, ◌≤◌, refl, Bool, true, false, List, [],
  ◌∷◌, some, Text, is_empty, length, Bool-cases, inl, inr, arith, ap, ◌∙◌,
}
use trc.Bloom.Filter.{
  BloomFilter, hashes, bit_index, set_bit, get_bit, set_hashes, all_set, add_hashed, may_contain,
  new_bloom_filter,
}

length-set_bit : (i : ℕ) (bs : List Bool) → length (set_bit i bs) ≡ length bs
unfolding set_bit
length-set_bit i [] = refl
length-set_bit zero (b ∷ bs) = refl
length-set_bit (suc i) (b ∷ bs) = ap suc (length-set_bit i bs)

get-set_bit : (i : ℕ) (bs : List Bool) → i < length bs → get_bit i (set_bit i bs) ≡ true
unfolding set_bit get_bit
get-set_bit i [] h = elim h [ ]
get-set_bit zero (b ∷ bs) h = refl
get-set_bit (suc i) (b ∷ bs) h = get-set_bit i bs (omega arith)

keep-set_bit : (i j : ℕ) (bs : List Bool) → get_bit j bs ≡ true → get_bit j (set_bit i bs) ≡ true
unfolding set_bit get_bit
keep-set_bit i j [] h = h
keep-set_bit zero zero (b ∷ bs) h = refl
keep-set_bit zero (suc j) (b ∷ bs) h = h
keep-set_bit (suc i) zero (b ∷ bs) h = h
keep-set_bit (suc i) (suc j) (b ∷ bs) h = keep-set_bit i j bs h

module _ (index : ℕ → ℕ) where
  length-set_hashes : (n : ℕ) (bs : List Bool) → length (set_hashes n index bs) ≡ length bs
  unfolding set_hashes
  length-set_hashes zero bs = refl
  length-set_hashes (suc n) bs =
      length-set_hashes n (set_bit (index n) bs) ∙ length-set_bit (index n) bs

  keep-set_hashes :
      (n j : ℕ) (bs : List Bool) → get_bit j bs ≡ true → get_bit j (set_hashes n index bs) ≡ true
  unfolding set_hashes
  keep-set_hashes zero j bs h = h
  keep-set_hashes (suc n) j bs h =
      keep-set_hashes n j (set_bit (index n) bs) (keep-set_bit (index n) j bs h)

  all_set-kept :
      (other : ℕ → ℕ) (n k : ℕ) (bs : List Bool)
      → all_set n other bs ≡ true
      → all_set n other (set_hashes k index bs) ≡ true
  unfolding all_set
  all_set-kept other zero k bs h = refl
  all_set-kept other (suc n) k bs h = elim (Bool-cases (get_bit (other n) bs)) [
    | inl set ↦ rw (keep-set_hashes k (other n) bs set) (all_set-kept other n k bs (ground arith))
    | inr clear ↦ absurd (ground arith)
  ]

  all_set-set_hashes :
      (n : ℕ) (bs : List Bool)
      → ((i : ℕ) → index i < length bs)
      → all_set n index (set_hashes n index bs) ≡ true
  unfolding all_set set_hashes
  all_set-set_hashes zero bs inside = refl
  all_set-set_hashes (suc n) bs inside =
      let now = set_bit (index n) bs in
      let set : get_bit (index n) (set_hashes n index now) ≡ true =
        keep-set_hashes n (index n) now (get-set_bit (index n) bs (inside n)) in
      rw set (all_set-set_hashes n now (λ i. rw (length-set_bit (index n) bs) (inside i)))

-- The bits that the hashes of a key name are there: no index is out of range.
pub record IsValid (f : BloomFilter) : Type 0 where
  pub has_bits : 0 < f.m
  pub covered : f.m ≤ length f.bits

pub add-IsValid : (address : Text) (f : BloomFilter) → IsValid f → IsValid (add_hashed address f)
unfolding add_hashed
add-IsValid address f h = elim (Bool-cases (is_empty address)) [
  | inl none_given ↦ rw none_given h
  | inr given ↦ rw given (record {
    has_bits = h.has_bits;
    covered = rw (length-set_hashes (bit_index f.m (hashes address)) f.k f.bits) h.covered;
  })
]

bit_index_bound : (m : ℕ) (h : ℕ × ℕ) (i : ℕ) → 0 < m → bit_index m h i < m
unfolding bit_index
bit_index_bound m (h1, h2) i positive = mod-lt _ positive

contains-add :
    (other key : Text) (f : BloomFilter)
    → may_contain (some f) key ≡ true
    → may_contain (some (add_hashed other f)) key ≡ true
unfolding may_contain add_hashed
contains-add other key f h = elim (Bool-cases (is_empty other)) [
  | inl none_given ↦ rw none_given h
  | inr given ↦ elim (Bool-cases (is_empty key)) [
    | inl no_key ↦ absurd (ground arith)
    | inr some_key ↦
        rw (given, some_key)
          (all_set-kept (bit_index f.m (hashes other)) (bit_index f.m (hashes key)) f.k f.k f.bits
            (ground arith))
  ]
]

contains-added :
    (key : Text) (f : BloomFilter)
    → is_empty key ≡ false
    → IsValid f
    → may_contain (some (add_hashed key f)) key ≡ true
unfolding may_contain add_hashed
contains-added key f given h = rw given (
    all_set-set_hashes (bit_index f.m (hashes key)) f.k f.bits
      (λ i. omega (arith, bit_index_bound f.m (hashes key) i h.has_bits, h.covered)))

abbrev pub add_all : List Text → BloomFilter → BloomFilter
add_all [] f = f
add_all (key ∷ keys) f = add_all keys (add_hashed key f)

contains-add_all :
    (key : Text) (later : List Text) (f : BloomFilter)
    → may_contain (some f) key ≡ true
    → may_contain (some (add_all later f)) key ≡ true
contains-add_all key [] f h = h
contains-add_all key (other ∷ later) f h =
    contains-add_all key later (add_hashed other f) (contains-add other key f h)

-- A negative answer of the filter is definitive: a key that is not empty, added to a valid filter, is
-- reported by MayContain, whatever keys are added after it.
pub no_false_negative :
    (key : Text) (later : List Text) (f : BloomFilter)
    → is_empty key ≡ false
    → IsValid f
    → may_contain (some (add_all later (add_hashed key f))) key ≡ true
no_false_negative key later f given h =
    contains-add_all key later (add_hashed key f) (contains-added key f given h)

add_all-IsValid : (keys : List Text) (f : BloomFilter) → IsValid f → IsValid (add_all keys f)
add_all-IsValid [] f h = h
add_all-IsValid (key ∷ keys) f h = add_all-IsValid keys (add_hashed key f) (add-IsValid key f h)

rounded_up : (m : ℕ) → m ≤ 64 * ((m + 63) / 64)
rounded_up m = omega arith

-- A new filter of at least one bit is valid, and stays so whatever is added: Add and MayContain never
-- index a word out of range.
pub new_bloom_filter-IsValid :
    (m k : ℕ) (keys : List Text) → 0 < m → IsValid (add_all keys (new_bloom_filter m k))
unfolding new_bloom_filter
new_bloom_filter-IsValid m k keys positive = add_all-IsValid keys _ (record {
  has_bits = positive;
  covered = rw (length-replicate (64 * ((m + 63) / 64)) false) (rounded_up m);
})
