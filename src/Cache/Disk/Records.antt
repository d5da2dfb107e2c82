-- ===== src/Cache/Disk/Records.antt =====
-- How a record of the cache file is read back.
use dnss_cpp.Common.{
  ℕ, zero, suc, ◌/◌, ◌≤◌, ◌<◌, ◌≡◌, refl, sym, ap, ◌∙◌, Option, none, some, List, ◌++◌, arith,
  length, length-append,
}
use mathlib.Core.List.{append_assoc}
use dnss_cpp.Common.Bytes.{IsU16, IsU32}
use dnss_cpp.Protocol.Buffer.{drop-append, take-append}
use dnss_cpp.Cache.{CacheKey}
use dnss_cpp.Cache.Disk.{le_bytes, le_number, record_bytes, read_bytes, reading, read_fields}

-- Numbers read back.
le_one : (v : ℕ) → v < 256 → le_number (le_bytes 1 v) ≡ v
unfolding le_number le_bytes
le_one v h = omega arith

le_two : (v : ℕ) → IsU16 v → le_number (le_bytes 2 v) ≡ v
unfolding le_number le_bytes
le_two v h = omega arith

pub le_four : (v : ℕ) → IsU32 v → le_number (le_bytes 4 v) ≡ v
unfolding le_number le_bytes
le_four v h = omega arith

pub length-le_bytes : (n v : ℕ) → length (le_bytes n v) ≡ n
unfolding le_bytes
length-le_bytes zero v = refl
length-le_bytes (suc n) v = ap suc (length-le_bytes n (v / 256))

read_bytes-length : (xs ys : List ℕ) → read_bytes (length xs) (xs ++ ys) ≡ some (xs, ys)
unfolding read_bytes
read_bytes-length xs ys = ground (arith, length-append xs ys, take-append xs ys, drop-append xs ys)

pub read_bytes-append :
    (n : ℕ) (xs ys : List ℕ) → length xs ≡ n → read_bytes n (xs ++ ys) ≡ some (xs, ys)
read_bytes-append n xs ys h =
    ap (λ (n : ℕ). read_bytes n (xs ++ ys)) (sym h) ∙ read_bytes-length xs ys

pub reading-append {ℓ} :
    {A : Type ℓ} (n : ℕ) (xs ys : List ℕ) (next : List ℕ → List ℕ → Option A)
    → length xs ≡ n
    → reading n (xs ++ ys) next ≡ next xs ys
unfolding reading
reading-append n xs ys next h =
    ap (λ o. elim o [ none ↦ none | some (bytes, rest) ↦ next bytes rest ])
      (read_bytes-append n xs ys h)

-- The bytes of a record, and what follows them.
abbrev pub spread : CacheKey → ℕ → List ℕ → List ℕ → List ℕ
spread k ttl wire rest =
    le_bytes 1 (length k.name)
    ++ (k.name
        ++ (le_bytes 2 k.type
            ++ (le_bytes 2 k.qclass
                ++ (le_bytes 4 ttl ++ (le_bytes 2 (length wire) ++ (wire ++ rest))))))

pub spread-record_bytes :
    (k : CacheKey) (ttl : ℕ) (wire rest : List ℕ)
    → record_bytes k ttl wire ++ rest ≡ spread k ttl wire rest
spread-record_bytes k ttl wire rest = inner (le_bytes 1 (length k.name)) _ (
    inner k.name _ (
      inner (le_bytes 2 k.type) _ (
        inner (le_bytes 2 k.qclass) _
          (inner (le_bytes 4 ttl) _ (append_assoc (le_bytes 2 (length wire)) wire rest)))))
  where
    inner : (xs ys : List ℕ) {zs : List ℕ} → ys ++ rest ≡ zs → (xs ++ ys) ++ rest ≡ xs ++ zs
    inner xs ys e = append_assoc xs ys rest ∙ ap (λ t. xs ++ t) e

abbrev pub KeyFits : CacheKey → Type 0
KeyFits k = (length k.name ≤ 255) × IsU16 k.type × IsU16 k.qclass

pub read_fields-spread :
    (k : CacheKey) (ttl : ℕ) (wire rest : List ℕ)
    → KeyFits k
    → IsU32 ttl
    → length wire ≤ 4096
    → read_fields (spread k ttl wire rest)
      ≡ some (record { key = k; ttl = ttl; wire_len = length wire; rest = wire ++ rest })
unfolding read_fields
read_fields-spread k ttl wire rest (a, b, c) d e =
    reading-append 1 (le_bytes 1 (length k.name)) _ _ (length-le_bytes 1 (length k.name))
    ∙ reading-append (le_number (le_bytes 1 (length k.name))) k.name _ _
        (sym (le_one (length k.name) (omega arith)))
    ∙ reading-append 2 (le_bytes 2 k.type) _ _ (length-le_bytes 2 k.type)
    ∙ reading-append 2 (le_bytes 2 k.qclass) _ _ (length-le_bytes 2 k.qclass)
    ∙ reading-append 4 (le_bytes 4 ttl) _ _ (length-le_bytes 4 ttl)
    ∙ reading-append 2 (le_bytes 2 (length wire)) _ _ (length-le_bytes 2 (length wire))
    ∙ (λ i. some (record {
      key = record { name = k.name; type = le_two k.type b i; qclass = le_two k.qclass c i };
      ttl = le_four ttl d i;
      wire_len = le_two (length wire) (omega arith) i;
      rest = wire ++ rest;
    }))
