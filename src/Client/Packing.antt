-- ===== src/Client/Packing.antt =====
-- What the client functions leave in their locals: the token, its size and the vector.
use tfm_demo.Prelude.{
  true, ℕ, ◌+◌, ◌-◌, ◌<◌, ◌≤◌, ◌≡◌, ◌⊎◌, ap, ◌∙◌, arith, inl, inr, word, ltb, leb, ◌&&◌,
}
use tfm_demo.AuditLog.Buffer.{Bytes, byte_of}
use tfm_demo.Store.Objects.{store32}
use tfm_demo.Store.Bytes.{u32_at-byte_of}
use tfm_demo.Manager.Access.{SstBuf, to_sst_buf}
use tfm_demo.Client.Api.{Locals, pack_data, pack_token}
use tfm_demo.Store.Meta.{u32_at}
use tfm_demo.Store.Entries.{u32_at_agree}

store32-inside : (b : Bytes) (i v k : ℕ) → k < 4 → store32 b i v (i + k) ≡ byte_of v k
store32-inside b i v k h = rw (inside_test) (ap (byte_of v) same)
  where
    inside_test : (leb i (i + k) && ltb (i + k) (i + 4)) ≡ true
    inside_test = ground arith

    same : i + k - i ≡ k
    same = omega arith

store32-outside : (b : Bytes) (i v x : ℕ) → (x < i) ⊎ (i + 4 ≤ x) → store32 b i v x ≡ b x
store32-outside b i v x h = ground arith

-- The vector that a call packs.
abbrev pub vector_of : ℕ → ℕ → ℕ → SstBuf
vector_of size offset address = record { address = address; size = size; offset = offset }

pub pack_data-vector :
    (s_data size offset address : ℕ) (b : Bytes)
    → size < word
    → offset < word
    → address < word
    → to_sst_buf (pack_data s_data size offset address b) s_data ≡ vector_of size offset address
unfolding pack_data
pack_data-vector s_data size offset address b h1 h2 h3 = cc (
  u32_at-byte_of after s_data address h3 (λ k l. store32-inside b2 s_data address k l),
  u32_at-byte_of after (s_data + 4) size h1 (λ k l.
      store32-outside b2 s_data address (s_data + 4 + k) (inr (omega arith))
      ∙ store32-outside b1 (s_data + 8) offset (s_data + 4 + k) (inl (omega arith))
      ∙ store32-inside b (s_data + 4) size k l),
  u32_at-byte_of after (s_data + 8) offset h2 (λ k l.
      store32-outside b2 s_data address (s_data + 8 + k) (inr (omega arith))
      ∙ store32-inside b1 (s_data + 8) offset k l),
)
  where
    b1 : Bytes
    b1 = store32 b (s_data + 4) size

    b2 : Bytes
    b2 = store32 b1 (s_data + 8) offset

    after : Bytes
    after = store32 b2 s_data address

-- A byte outside the two locals.
abbrev pub IsOutside : Locals → ℕ → Type 0
IsOutside l x = ((x < l.s_token) ⊎ (l.s_token + 8 ≤ x)) × ((x < l.s_data) ⊎ (l.s_data + 12 ≤ x))

-- The structure at `s_token` holds the token and its size, where they have 32 bits.
abbrev pub IsTokenAt : ℕ → ℕ → Bytes → ℕ → Type 0
IsTokenAt token token_size ram s_token =
    (token < word → u32_at ram s_token ≡ token)
    × (token_size < word → u32_at ram (s_token + 4) ≡ token_size)

module _ (token token_size : ℕ) (l : Locals) (ram : Bytes) where
  pub pack_token-kept :
      (b : Bytes) (x : ℕ) → IsOutside l x → pack_token l.s_token token token_size b x ≡ b x
  unfolding pack_token
  pack_token-kept b x o =
      store32-outside (store32 b l.s_token token) (l.s_token + 4) token_size x
        (elim o.0 [ inl h ↦ inl (omega arith) | inr h ↦ inr (omega arith) ])
      ∙ store32-outside b l.s_token token x (elim o.0 [ inl h ↦ inl h | inr h ↦ inr (omega arith) ])

  pub pack_data-kept :
      (size offset address : ℕ) (b : Bytes) (x : ℕ)
      → IsOutside l x
      → pack_data l.s_data size offset address b x ≡ b x
  unfolding pack_data
  pack_data-kept size offset address b x o =
      store32-outside (store32 (store32 b (l.s_data + 4) size) (l.s_data + 8) offset) l.s_data
        address x (elim o.1 [ inl h ↦ inl h | inr h ↦ inr (omega arith) ])
      ∙ store32-outside (store32 b (l.s_data + 4) size) (l.s_data + 8) offset x
          (elim o.1 [ inl h ↦ inl (omega arith) | inr h ↦ inr (omega arith) ])
      ∙ store32-outside b (l.s_data + 4) size x
          (elim o.1 [ inl h ↦ inl (omega arith) | inr h ↦ inr (omega arith) ])

  pub token_alone : IsTokenAt token token_size (pack_token l.s_token token token_size ram) l.s_token
  unfolding pack_token
  token_alone = (
    λ h. u32_at-byte_of (pack_token l.s_token token token_size ram) l.s_token token h (λ k a.
        store32-outside (store32 ram l.s_token token) (l.s_token + 4) token_size (l.s_token + k)
          (inl (omega arith))
        ∙ store32-inside ram l.s_token token k a),
    λ h.
        u32_at-byte_of (pack_token l.s_token token token_size ram) (l.s_token + 4) token_size h
          (λ k a. store32-inside (store32 ram l.s_token token) (l.s_token + 4) token_size k a),
  )

  beside_data :
      (l.s_token + 8 ≤ l.s_data) ⊎ (l.s_data + 12 ≤ l.s_token)
      → (size offset address x : ℕ) (b : Bytes) → l.s_token ≤ x
      → x < l.s_token + 8
      → pack_data l.s_data size offset address b x ≡ b x
  unfolding pack_data
  beside_data apart size offset address x b lo hi =
      store32-outside (store32 (store32 b (l.s_data + 4) size) (l.s_data + 8) offset) l.s_data
        address x (elim apart [ inl h ↦ inl (omega arith) | inr h ↦ inr (omega arith) ])
      ∙ store32-outside (store32 b (l.s_data + 4) size) (l.s_data + 8) offset x
          (elim apart [ inl h ↦ inl (omega arith) | inr h ↦ inr (omega arith) ])
      ∙ store32-outside b (l.s_data + 4) size x
          (elim apart [ inl h ↦ inl (omega arith) | inr h ↦ inr (omega arith) ])

  pub token_beside :
      (l.s_token + 8 ≤ l.s_data) ⊎ (l.s_data + 12 ≤ l.s_token)
      → (size offset address : ℕ)
      → IsTokenAt token token_size
          (pack_data l.s_data size offset address (pack_token l.s_token token token_size ram))
          l.s_token
  token_beside apart size offset address = (
    λ h.
        u32_at_agree (pack_data l.s_data size offset address b) b l.s_token (λ k a.
          beside_data apart size offset address (l.s_token + k) b (omega arith) (omega arith))
        ∙ token_alone.0 h,
    λ h.
        u32_at_agree (pack_data l.s_data size offset address b) b (l.s_token + 4) (λ k a.
          beside_data apart size offset address (l.s_token + 4 + k) b (omega arith) (omega arith))
        ∙ token_alone.1 h,
  )
    where
      b : Bytes
      b = pack_token l.s_token token token_size ram
