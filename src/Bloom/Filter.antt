-- ===== src/Bloom/Filter.antt =====
-- BloomFilter of internal/bloom/bloom.go. The words of `bits` are written out bit by bit: bit b of
-- word w is the element 64 * w + b. A nil filter is `none`. The capacity and the false positive
-- rate, which Estimate computes with floating point numbers, are inputs here.
use trc.Base.{
  ℕ, zero, suc, ◌+◌, ◌*◌, ◌/◌, ◌%◌, ◌^◌, Bool, true, false, not, List, [], ◌∷◌, Option, none, some,
  Text, is_empty, replicate, if◌then◌else◌, ◌==◌,
}

pub record BloomFilter : Type 0 where
  pub bits : List Bool
  pub m : ℕ
  pub k : ℕ
  pub count : ℕ

-- `make([]uint64, (m+63)/64)`
unfoldable pub new_bloom_filter : ℕ → ℕ → BloomFilter
new_bloom_filter m k = record {
  bits = replicate (64 * ((m + 63) / 64)) false;
  m = m;
  k = k;
  count = 0;
}

abbrev pub word : ℕ
word = 2 ^ 64

abbrev fnv_offset_1 : ℕ
fnv_offset_1 = 14695981039346656037

-- fnvOffset2 and fnvPrime are the same number.
abbrev fnv_prime : ℕ
fnv_prime = 1099511628211

-- `a ^ b` of 64-bit words, from the lowest bit.
unfoldable pub xor_bits : ℕ → ℕ → ℕ → ℕ
xor_bits zero a b = 0
xor_bits (suc n) a b = (a % 2 + b % 2) % 2 + 2 * xor_bits n (a / 2) (b / 2)

unfoldable pub xor : ℕ → ℕ → ℕ
unfolding xor_bits
xor a b = xor_bits 64 a b

-- One round of the loop of `hashes`.
unfoldable pub mix_1 : ℕ → ℕ → ℕ
unfolding xor
mix_1 h byte = xor h byte * fnv_prime % word

unfoldable pub mix_2 : ℕ → ℕ → ℕ
unfolding xor
mix_2 h byte = let mixed = (h + byte) % word * fnv_prime % word in xor mixed (mixed / 2 ^ 29)

unfoldable pub fold_bytes : (ℕ → ℕ → ℕ) → ℕ → Text → ℕ
fold_bytes mix h [] = h
fold_bytes mix h (byte ∷ key) = fold_bytes mix (mix h byte) key

unfoldable pub hashes : Text → ℕ × ℕ
unfolding mix_1 mix_2 fold_bytes
hashes key =
    let h2 = fold_bytes mix_2 fnv_prime key in
    (fold_bytes mix_1 fnv_offset_1 key, if h2 % 2 == 0 then (h2 + 1) % word else h2)

-- `(h1 + i*h2) % f.m`
unfoldable pub bit_index : ℕ → ℕ × ℕ → ℕ → ℕ
bit_index m (h1, h2) i = (h1 + i * h2 % word) % word % m

unfoldable pub set_bit : ℕ → List Bool → List Bool
set_bit i [] = []
set_bit zero (b ∷ bs) = true ∷ bs
set_bit (suc i) (b ∷ bs) = b ∷ set_bit i bs

unfoldable pub get_bit : ℕ → List Bool → Bool
get_bit i [] = false
get_bit zero (b ∷ bs) = b
get_bit (suc i) (b ∷ bs) = get_bit i bs

-- The loops of Add and MayContain, over i from the last hash down to the first.
unfoldable pub set_hashes : ℕ → (ℕ → ℕ) → List Bool → List Bool
unfolding set_bit
set_hashes zero index bs = bs
set_hashes (suc i) index bs = set_hashes i index (set_bit (index i) bs)

unfoldable pub all_set : ℕ → (ℕ → ℕ) → List Bool → Bool
unfolding get_bit
all_set zero index bs = true
all_set (suc i) index bs =
    let rest = all_set i index bs in if not (get_bit (index i) bs) then false else rest

unfoldable pub add_hashed : Text → BloomFilter → BloomFilter
unfolding hashes bit_index set_hashes
add_hashed address f = if is_empty address then f else record f {
  bits = set_hashes f.k (bit_index f.m (hashes address)) f.bits;
  count = f.count + 1;
}

unfoldable pub add : Text → Option BloomFilter → Option BloomFilter
unfolding add_hashed
add address none = none
add address (some f) = some (add_hashed address f)

unfoldable pub may_contain : Option BloomFilter → Text → Bool
unfolding hashes bit_index all_set
may_contain none key = true
may_contain (some f) key =
    if is_empty key then false else all_set f.k (bit_index f.m (hashes key)) f.bits
