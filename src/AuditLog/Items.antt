-- ===== src/AuditLog/Items.antt =====
-- The log as a sequence of items, and how the ring holds them.
use tfm_demo.Prelude.{ℕ, ◌+◌, ◌%◌, ◌≤◌, ◌<◌, ◌≡◌, ap, ◌∙◌, arith, List, [], ◌∷◌, ◌++◌}
use tfm_demo.AuditLog.Buffer.{Bytes, log_size, ring_copy, read32}
use tfm_demo.AuditLog.Log.{get_size_field, entry_size, get_next_log_index}
use tfm_demo.AuditLog.Copy.{ring_copy-outside}

pub record Item : Type 0 where
  pub len : ℕ
  pub bytes : Bytes

-- The bytes that the items take together.
abbrev pub total : List Item → ℕ
total [] = 0
total (it ∷ rest) = it.len + total rest

-- The length agrees with the size field, and keeps items on 4-byte boundaries.
pub record IsItem (it : Item) : Type 0 where
  pub sized : it.len ≡ read32 it.bytes 16 + 24
  pub fits : it.len ≤ log_size
  pub aligned : it.len % 4 ≡ 0

-- The ring holds the item from index `i` on.
abbrev pub At : Bytes → ℕ → Item → Type 0
At b i it = (k : ℕ) → k < it.len → b ((i + k) % log_size) ≡ it.bytes k

-- The ring holds the items one behind the other from index `i` on.
abbrev pub Holds : Bytes → ℕ → List Item → Type 0
Holds b i [] = Unit
Holds b i (it ∷ rest) = At b i it × IsItem it × Holds b ((i + it.len) % log_size) rest

-- The index of the last item.
abbrev pub last_at : ℕ → List Item → ℕ
last_at i [] = i
last_at i (it ∷ []) = i
last_at i (it ∷ (x ∷ rest)) = last_at ((i + it.len) % log_size) (x ∷ rest)

-- The code reads the length of an item back from the ring.
pub entry_size-At :
    (b : Bytes) (i : ℕ) (it : Item)
    → i < log_size
    → i % 4 ≡ 0
    → At b i it
    → IsItem it
    → entry_size b i ≡ it.len
unfolding entry_size get_size_field
entry_size-At b i it lt al h w = omega (arith, w.sized, w.fits, byte 0, byte 1, byte 2, byte 3, b0)
  where
    byte : (k : ℕ) → k < 4 → b ((i + 16) % log_size + k) ≡ it.bytes (16 + k)
    byte k kl = ap b (omega arith) ∙ h (16 + k) (omega (arith, w.sized))

    b0 : b ((i + 16) % log_size) ≡ it.bytes 16
    b0 = ap b (omega arith) ∙ h 16 (omega (arith, w.sized))

pub get_next-At :
    (b : Bytes) (i : ℕ) (it : Item)
    → i < log_size
    → i % 4 ≡ 0
    → At b i it
    → IsItem it
    → get_next_log_index b i ≡ (i + it.len) % log_size
unfolding get_next_log_index
get_next-At b i it lt al h w = omega (arith, entry_size-At b i it lt al h w, w.fits)

-- The index behind the last item.
pub get_next-last_at :
    (b : Bytes) (i : ℕ) (it : Item) (rest : List Item)
    → i < log_size
    → i % 4 ≡ 0
    → Holds b i (it ∷ rest)
    → get_next_log_index b (last_at i (it ∷ rest)) ≡ (i + total (it ∷ rest)) % log_size
get_next-last_at b i it [] lt al h = get_next-At b i it lt al h.0 h.1 ∙ omega arith
get_next-last_at b i it (x ∷ rest) lt al h =
    get_next-last_at b ((i + it.len) % log_size) x rest (omega arith) (omega (arith, h.1.aligned))
      h.2
    ∙ omega arith

-- A copy behind the items leaves them as they are.
pub Holds-ring_copy :
    (b src : Bytes) (i n at : ℕ) (items : List Item)
    → at ≡ (i + total items) % log_size
    → total items + n ≤ log_size
    → Holds b i items
    → Holds (ring_copy at src 0 n b) i items
Holds-ring_copy b src i n at [] e h w = tt
Holds-ring_copy b src i n at (it ∷ rest) e h w = (
  λ k lt. ring_copy-outside at 0 n ((i + k) % log_size) src b (λ j x y. omega arith) ∙ w.0 k lt,
  w.1,
  Holds-ring_copy b src ((i + it.len) % log_size) n at rest (omega arith) (omega arith) w.2,
)

pub Holds-append :
    (b : Bytes) (i : ℕ) (items : List Item) (it : Item)
    → Holds b i items
    → At b ((i + total items) % log_size) it
    → IsItem it
    → Holds b i (items ++ (it ∷ []))
Holds-append b i [] it h at w = ((λ k lt. ap b (omega arith) ∙ at k lt), w, tt)
Holds-append b i (x ∷ rest) it h at w = (
  h.0,
  h.1,
  Holds-append b ((i + x.len) % log_size) rest it h.2 (λ k lt. ap b (omega arith) ∙ at k lt) w,
)

pub total-append :
    (items : List Item) (it : Item) → total (items ++ (it ∷ [])) ≡ total items + it.len
total-append [] it = omega arith
total-append (x ∷ rest) it = omega (arith, total-append rest it)

pub last_at-append :
    (i : ℕ) (items : List Item) (it : Item)
    → i < log_size
    → last_at i (items ++ (it ∷ [])) ≡ (i + total items) % log_size
last_at-append i [] it lt = omega arith
last_at-append i (x ∷ []) it lt = omega arith
last_at-append i (x ∷ (y ∷ rest)) it lt =
    last_at-append ((i + x.len) % log_size) (y ∷ rest) it (omega arith) ∙ omega arith
