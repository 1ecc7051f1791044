-- ===== src/Sst/PolicyLaws.antt =====
-- Who gets an asset's entry from `sst_am_get_db_entry`.
use tfm_demo.Prelude.{
  ℕ, zero, suc, ◌+◌, ◌%◌, ◌^◌, ◌<◌, ◌≡◌, ◌≢◌, refl, ◌∙◌, sym, subst, ap, arith, Option, none, some,
  true, false, ◌==◌, List, [], ◌∷◌, get_elem?, ◌⊎◌, inl, inr, if-some, Bool-cases,
}
use tfm_demo.Sst.Policy.{
  s_app_id, perm_reference, perm_read, AssetPerm, AssetPolicy, shares_bit, if_app,
  lookup_perms_from, lookup_app_perms, lookup_db_entry, check_s_ns_policy, if_permitted, if_listed,
  entry_for, get_db_entry,
}

-- The entry stands in the table under the id.
pub record Listed (perms : List AssetPolicy) (uuid : ℕ) (e : AssetPolicy) : Type 0 where
  pub index : ℕ
  pub there : get_elem? perms index ≡ some e
  pub named : e.asset_uuid ≡ uuid

-- One of the `rounds` permissions from `idx` on is the application's and matches the request.
pub record Permits (modes : List AssetPerm) (idx rounds app_id request : ℕ) : Type 0 where
  pub offset : ℕ
  pub within : offset < rounds
  pub perm : AssetPerm
  pub there : get_elem? modes (idx + offset) ≡ some perm
  pub owner : perm.app ≡ app_id
  pub matches : shares_bit perm.perm request ≡ true

Listed-suc :
    (x : AssetPolicy) (rest : List AssetPolicy) (uuid : ℕ) (e : AssetPolicy)
    → Listed rest uuid e
    → Listed (x ∷ rest) uuid e
Listed-suc x rest uuid e w = record { index = suc w.index; there = w.there; named = w.named }

Permits-suc :
    (modes : List AssetPerm) (idx rounds app_id request : ℕ)
    → Permits modes (idx + 1) rounds app_id request
    → Permits modes idx (suc rounds) app_id request
Permits-suc modes idx rounds app_id request w = record {
  offset = suc w.offset;
  within = omega (arith, w.within);
  perm = w.perm;
  there = ap (get_elem? modes) (omega arith) ∙ w.there;
  owner = w.owner;
  matches = w.matches;
}

if_app-some :
    (app_id : ℕ) (o later : Option AssetPerm) (p : AssetPerm)
    → if_app app_id o later ≡ some p
    → ((o ≡ some p) × (p.app ≡ app_id)) ⊎ (later ≡ some p)
if_app-some app_id none later p h = absurd (cc h)
if_app-some app_id (some e) later p h = elim (if-some (e.app == app_id) e p later h) [
  | inl w ↦ inl (ap some w.1, ap (λ y. y.app) (sym w.1) ∙ ground (arith, w.0))
  | inr w ↦ inr w.1
]

pub lookup_db_entry-Listed :
    (perms : List AssetPolicy) (uuid : ℕ) (e : AssetPolicy)
    → lookup_db_entry perms uuid ≡ some e
    → Listed perms uuid e
unfolding lookup_db_entry
lookup_db_entry-Listed [] uuid e h = absurd (cc h)
lookup_db_entry-Listed (x ∷ rest) uuid e h =
    elim (if-some (x.asset_uuid == uuid) x e (lookup_db_entry rest uuid) h) [
      | inl w ↦ record {
        index = 0;
        there = ap some w.1;
        named = ap (λ y. y.asset_uuid) (sym w.1) ∙ ground (arith, w.0);
      }
      | inr w ↦ Listed-suc x rest uuid e (lookup_db_entry-Listed rest uuid e w.1)
    ]

lookup_perms_from-Permits :
    (modes : List AssetPerm) (app_id request idx rounds : ℕ) (p : AssetPerm)
    → lookup_perms_from modes app_id idx rounds ≡ some p
    → shares_bit p.perm request ≡ true
    → Permits modes idx rounds app_id request
unfolding lookup_perms_from
lookup_perms_from-Permits modes app_id request idx zero p h m = absurd (cc h)
lookup_perms_from-Permits modes app_id request idx (suc rounds) p h m =
    elim (if_app-some app_id (get_elem? modes idx) (lookup_perms_from modes app_id (idx + 1) rounds)
      p h) [
        | inl w ↦ record {
          offset = 0;
          within = omega arith;
          perm = p;
          there = ap (get_elem? modes) (omega arith) ∙ w.0;
          owner = w.1;
          matches = m;
        }
        | inr w ↦
            Permits-suc modes idx rounds app_id request
              (lookup_perms_from-Permits modes app_id request (idx + 1) rounds p w m)
      ]

if_permitted-Permits :
    (modes : List AssetPerm) (app_id request : ℕ) (d e : AssetPolicy) (o : Option AssetPerm)
    → lookup_app_perms modes d app_id ≡ o
    → if_permitted request d o ≡ some e
    → (d ≡ e) × Permits modes d.perms_modes_start_idx d.perms_count app_id request
unfolding lookup_app_perms
if_permitted-Permits modes app_id request d e none q h = absurd (cc h)
if_permitted-Permits modes app_id request d e (some p) q h =
    elim (if-some (shares_bit p.perm request) d e none h) [
      | inl w ↦ (
        w.1,
        lookup_perms_from-Permits modes app_id request d.perms_modes_start_idx d.perms_count p q
            w.0,
      )
      | inr w ↦ absurd (cc w.1)
    ]

if_listed-Permits :
    (perms : List AssetPolicy) (modes : List AssetPerm) (app_id uuid request : ℕ) (e : AssetPolicy)
    (o : Option AssetPolicy)
    → request ≢ 8
    → lookup_db_entry perms uuid ≡ o
    → if_listed modes app_id request o ≡ some e
    → Listed perms uuid e × Permits modes e.perms_modes_start_idx e.perms_count app_id request
if_listed-Permits perms modes app_id uuid request e none ne q h = absurd (cc h)
if_listed-Permits perms modes app_id uuid request e (some d) ne q h =
    elim (if-some (request == 8) d e (if_permitted request d (lookup_app_perms modes d app_id)) h) [
      | inl w ↦ absurd (ne (ground (arith, w.0)))
      | inr w ↦ (
        lookup_db_entry-Listed perms uuid e (
            q
            ∙ ap some
                (if_permitted-Permits modes app_id request d e (lookup_app_perms modes d app_id)
                  refl w.1).0),
        subst (λ y. Permits modes y.perms_modes_start_idx y.perms_count app_id request)
            (if_permitted-Permits modes app_id request d e (lookup_app_perms modes d app_id) refl
              w.1).0
            (if_permitted-Permits modes app_id request d e (lookup_app_perms modes d app_id) refl
              w.1).1,
      )
    ]

-- What a sanitized request needs, unless it bypasses the permissions.
entry_for-Permits :
    (perms : List AssetPolicy) (modes : List AssetPerm) (app_id uuid request : ℕ) (e : AssetPolicy)
    → request ≢ 8
    → entry_for perms modes app_id uuid request ≡ some e
    → Listed perms uuid e × Permits modes e.perms_modes_start_idx e.perms_count app_id request
unfolding entry_for
entry_for-Permits perms modes app_id uuid request e ne h = elim (Bool-cases (request == 0)) [
  | inl z ↦ absurd (cc (z, h))
  | inr z ↦
      if_listed-Permits perms modes app_id uuid request e (lookup_db_entry perms uuid) ne refl
        (cc (z, h))
]

none_is_not_some : {e : AssetPolicy} → none ≢ some e
none_is_not_some h = absurd (cc h)

entry_for-forbidden :
    (perms : List AssetPolicy) (modes : List AssetPerm) (app_id uuid request : ℕ) (e : AssetPolicy)
    → request ≡ 0
    → entry_for perms modes app_id uuid request ≢ some e
unfolding entry_for
entry_for-forbidden perms modes app_id uuid request e z h =
    none_is_not_some (subst (λ r. entry_for perms modes app_id uuid r ≡ some e) z h)

-- For a request of the three permissions (below 8), a caller that is not secure gets an entry only under an application id that is not the secure
-- one, only of an asset that is listed under the id asked for, and only if a permission of the
-- asset's, for this application, matches the request.
pub get_db_entry-non_secure :
    (perms : List AssetPolicy) (modes : List AssetPerm) (app_id uuid request : ℕ) (e : AssetPolicy)
    → request < 8
    → get_db_entry perms modes false app_id uuid request ≡ some e
    → (app_id ≢ s_app_id)
      × Listed perms uuid e
      × Permits modes e.perms_modes_start_idx e.perms_count app_id request
unfolding get_db_entry check_s_ns_policy
get_db_entry-non_secure perms modes app_id uuid request e lt h =
    elim (Bool-cases (app_id == s_app_id)) [
      | inl z ↦ absurd (entry_for-forbidden perms modes app_id uuid _ e (ground (arith, z)) h)
      | inr z ↦ (
        ground (arith, z),
        (entry_for-Permits perms modes app_id uuid request e (omega arith)
            (subst (λ r. entry_for perms modes app_id uuid r ≡ some e) (kept z) h)).0,
        (entry_for-Permits perms modes app_id uuid request e (omega arith)
            (subst (λ r. entry_for perms modes app_id uuid r ≡ some e) (kept z) h)).1,
      )
    ]
  where
    kept : (app_id == s_app_id) ≡ false → check_s_ns_policy false app_id request % 2 ^ 8 ≡ request
    kept z = ground (arith, z)

-- A secure caller that names another application gets an entry only for a request to read, and only
-- where that application may reference the asset.
pub get_db_entry-delegated :
    (perms : List AssetPolicy) (modes : List AssetPerm) (app_id uuid request : ℕ) (e : AssetPolicy)
    → app_id ≢ s_app_id
    → get_db_entry perms modes true app_id uuid request ≡ some e
    → (shares_bit request perm_read ≡ true)
      × Listed perms uuid e
      × Permits modes e.perms_modes_start_idx e.perms_count app_id perm_reference
unfolding get_db_entry check_s_ns_policy
get_db_entry-delegated perms modes app_id uuid request e ne h =
    elim (Bool-cases (shares_bit request perm_read)) [
      | inl z ↦ (
        z,
        (entry_for-Permits perms modes app_id uuid 1 e (omega arith)
            (subst (λ r. entry_for perms modes app_id uuid r ≡ some e) (reading z) h)).0,
        (entry_for-Permits perms modes app_id uuid 1 e (omega arith)
            (subst (λ r. entry_for perms modes app_id uuid r ≡ some e) (reading z) h)).1,
      )
      | inr z ↦ absurd (entry_for-forbidden perms modes app_id uuid _ e (other z) h)
    ]
  where
    reading :
        shares_bit request perm_read ≡ true → check_s_ns_policy true app_id request % 2 ^ 8 ≡ 1
    reading z = ground (arith, z)

    other : shares_bit request perm_read ≡ false → check_s_ns_policy true app_id request % 2 ^ 8 ≡ 0
    other z = ground (arith, z)

if_listed-bypass :
    (modes : List AssetPerm) (o : Option AssetPolicy) → if_listed modes s_app_id 8 o ≡ o
if_listed-bypass modes none = refl
if_listed-bypass modes (some e) = refl

-- A secure caller on its own behalf gets the entry of every asset that is listed.
pub get_db_entry-own :
    (perms : List AssetPolicy) (modes : List AssetPerm) (uuid request : ℕ)
    → get_db_entry perms modes true s_app_id uuid request ≡ lookup_db_entry perms uuid
unfolding get_db_entry check_s_ns_policy entry_for
get_db_entry-own perms modes uuid request = if_listed-bypass modes (lookup_db_entry perms uuid)
