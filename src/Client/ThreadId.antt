-- ===== src/Client/ThreadId.antt =====
-- The application id of a thread.
use tfm_demo.Prelude.{
  true, false, sym, ◌≢◌, List, [], ◌∷◌, Bool-cases, ℕ, ◌≡◌, ◌⊎◌, refl, ◌∙◌, inl, inr,
}
use tfm_demo.Client.Route.{ThreadAppId, sst_get_cur_id}
use Prim.Native.String.{String}
use text.Mathlib.Text.{◌==◌ as str_eq}
use text.Mathlib.TextEquality.{eq_iff}

-- The id of the first entry with the name of the thread, or 0.
abbrev pub IsIdOf : List ThreadAppId → String → ℕ → Type 0
IsIdOf [] thread id = id ≡ 0
IsIdOf (e ∷ rest) thread id =
    ((e.t_name ≡ thread) × (id ≡ e.app_id)) ⊎ ((e.t_name ≢ thread) × IsIdOf rest thread id)

pub sst_get_cur_id-IsIdOf :
    (table : List ThreadAppId) (thread : String) → IsIdOf table thread (sst_get_cur_id table thread)
unfolding sst_get_cur_id
sst_get_cur_id-IsIdOf [] thread = refl
sst_get_cur_id-IsIdOf (e ∷ rest) thread = elim (Bool-cases (str_eq e.t_name thread)) [
  | inl same ↦ rw same (inl ((eq_iff e.t_name thread).0 same, refl))
  | inr other ↦ rw other (
      inr (
        (λ h. true_ne_false (sym ((eq_iff e.t_name thread).1 h) ∙ other)),
        sst_get_cur_id-IsIdOf rest thread,
      ))
]
  where
    true_ne_false : true ≡ false → ⊥
    true_ne_false h = cc h
