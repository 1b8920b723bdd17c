-- ===== src/Configuration/Decision.antt =====
-- When posts are deleted for good.
use native.Mathlib.Omega.{arith}
use mattermost_plugin_messag.Base.{
  ◌≡◌, ◌↔◌, refl, ◌⊎◌, Bool, true, false, List, [], ◌∷◌, ◌++◌, any, contains, Text, text_eq_iff,
  text_eq_refl, has_prefix, Bool-cases, inl, inr,
}
use mattermost_plugin_messag.Configuration.{
  version_allowed, purge_soft, purge_skip, purge_hard, purge_decision,
}

-- `s` goes on from `p`
pub has_prefix_iff : (s p : Text) → (has_prefix s p ≡ true) ↔ ((rest : Text) × (s ≡ p ++ rest))
unfolding has_prefix
has_prefix_iff s [] = (λ h. (s, refl), λ h. refl)
has_prefix_iff [] (c ∷ p) = (λ h. cc, λ (rest, e). cc)
has_prefix_iff (d ∷ s) (c ∷ p) =
    let same = has_prefix_iff s p in
    (
      λ h. let (rest, e) = same.0 (ground arith) in (rest, ground arith),
      λ (rest, e). let tails : s ≡ p ++ rest = ground arith in ground (arith, same.1 (rest, tails)),
    )

-- A version is allowed if it starts with an element of the list.
pub record Allows (version : Text) (allowlist : List Text) : Type 0 where
  pub entry : Text
  pub listed : contains allowlist entry ≡ true
  pub starts : has_prefix version entry ≡ true

widen : (a : Text) (l : List Text) (e : Text) → contains l e ≡ true → contains (a ∷ l) e ≡ true
unfolding contains any
widen a l e h = ground arith

sound :
    (version : Text) (l : List Text) → any (λ a. has_prefix version a) l ≡ true → Allows version l
unfolding any contains
sound version [] h = cc
sound version (a ∷ l) h = elim (Bool-cases (has_prefix version a)) [
  | inl here ↦ record { entry = a; listed = ground (arith, text_eq_refl a); starts = here }
  | inr later ↦
      let rest = sound version l (ground arith) in
      record { entry = rest.entry; listed = widen a l rest.entry rest.listed; starts = rest.starts }
]

complete :
    (version entry : Text) (l : List Text)
    → contains l entry ≡ true
    → has_prefix version entry ≡ true
    → any (λ a. has_prefix version a) l ≡ true
unfolding any contains
complete version entry [] h p = cc
complete version entry (a ∷ l) h p = ground (arith, complete version entry l, text_eq_iff a entry)

pub version_allowed_iff :
    (version : Text) (l : List Text) → (version_allowed version l ≡ true) ↔ Allows version l
unfolding version_allowed any
version_allowed_iff version [] = (λ h. cc, λ h. complete version h.entry [] h.listed h.starts)
version_allowed_iff version (a ∷ l) =
    (sound version (a ∷ l), λ h. complete version h.entry (a ∷ l) h.listed h.starts)

not_allowed :
    (b ee : Bool) (version : Text) (l : List Text)
    → b ≡ true
    → ee ≡ false
    → ¬ Allows version l
    → purge_decision b ee version l ≡ purge_skip
unfolding purge_decision
not_allowed b ee version l on team n = elim (Bool-cases (version_allowed version l)) [
  | inl allowed ↦ absurd (n ((version_allowed_iff version l).0 allowed))
  | inr forbidden ↦ ground arith
]

-- Posts are deleted for good exactly if the purge is enabled, the server has no license and the
-- allowlist has a prefix of its version. They are soft-deleted exactly if the purge is disabled or
-- the server has a license, and left alone exactly in the remaining case.
pub purge_decision_iff :
    (enable_purge is_enterprise : Bool) (version : Text) (l : List Text)
    → ((purge_decision enable_purge is_enterprise version l ≡ purge_hard)
        ↔ ((enable_purge ≡ true) × (is_enterprise ≡ false) × Allows version l))
      × ((purge_decision enable_purge is_enterprise version l ≡ purge_soft)
          ↔ ((enable_purge ≡ false) ⊎ (is_enterprise ≡ true)))
      × ((purge_decision enable_purge is_enterprise version l ≡ purge_skip)
          ↔ ((enable_purge ≡ true) × (is_enterprise ≡ false) × (¬ Allows version l)))
unfolding purge_decision
purge_decision_iff b ee version l =
    let allowed = version_allowed_iff version l in
    (
      (
        λ h. (ground arith, ground arith, allowed.0 (ground arith)),
        λ (on, team, a). ground (arith, allowed.1 a),
      ),
      (λ h. ground arith, λ h. ground arith),
      (
        λ h. (ground arith, ground arith, λ a. ground (arith, allowed.1 a)),
        λ (on, team, n). not_allowed b ee version l on team n,
      ),
    )
