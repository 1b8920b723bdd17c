-- ===== src/Manifest/Versions.antt =====
-- The version that findManifest generates.
use native.Mathlib.Omega.{arith}
use mattermost_plugin_messag.Base.{
  ℕ, ◌≡◌, refl, ap, inl, inr, true, false, not, List, [], ◌∷◌, ◌++◌, All, Text, text, has_prefix,
  is_nil, fields, Bool-cases, if◌then◌else◌,
}
use mattermost_plugin_messag.Manifest.{Build, trim_v, first_version, generated_version}

-- a tag without the prefix v
abbrev pub Unversioned : Text → Type 0
Unversioned t = has_prefix t (b'v' ∷ []) ≡ false

-- The first tag with the prefix v, in a list that has one or has none.
pub data FirstVersion (tags : List Text) : Text → Type 0 where
  found :
      (pre : List Text) (t : Text) (post : List Text)
      → tags ≡ pre ++ (b'v' ∷ t) ∷ post
      → All Unversioned pre
      → FirstVersion tags (b'v' ∷ t)
  missing : All Unversioned tags → FirstVersion tags []

versioned : (t : Text) → has_prefix t (b'v' ∷ []) ≡ true → (s : Text) × (t ≡ b'v' ∷ s)
unfolding has_prefix
versioned [] h = absurd (ground arith)
versioned (c ∷ t) h = (t, ground arith)

first_version-cons :
    (t : Text) (tags : List Text)
    → (has_prefix t (b'v' ∷ []) ≡ true → first_version (t ∷ tags) ≡ t)
      × (Unversioned t → first_version (t ∷ tags) ≡ first_version tags)
unfolding first_version
first_version-cons t tags = ((λ h. ground arith), λ h. ground arith)

later-FirstVersion :
    (t : Text) (tags : List Text) (v : Text)
    → Unversioned t
    → FirstVersion tags v
    → FirstVersion (t ∷ tags) v
later-FirstVersion t tags v plain (FirstVersion.found pre s post at before) =
    FirstVersion.found (t ∷ pre) s post (ap (λ l. t ∷ l) at) (plain, before)
later-FirstVersion t tags v plain (FirstVersion.missing none) = FirstVersion.missing (plain, none)

pub first_version-FirstVersion : (tags : List Text) → FirstVersion tags (first_version tags)
unfolding first_version
first_version-FirstVersion [] = FirstVersion.missing tt
first_version-FirstVersion (t ∷ tags) = elim (Bool-cases (has_prefix t (b'v' ∷ []))) [
  | inl tag ↦
      let (s, same) = versioned t tag in
      rw ((first_version-cons t tags).0 tag, same) (FirstVersion.found [] s tags refl tt)
  | inr plain ↦
      rw ((first_version-cons t tags).1 plain)
        (later-FirstVersion t tags (first_version tags) plain (first_version-FirstVersion tags))
]

-- What a generated version is, without a leading v: the first tag of the commit with the prefix v, or
-- the latest tag and the hash, or 0.0.0 and the hash.
pub data Generated (b : Build) : Text → Type 0 where
  tagged :
      (pre : List Text) (t : Text) (post : List Text)
      → fields b.tag_current ≡ pre ++ (b'v' ∷ t) ∷ post
      → All Unversioned pre
      → Generated b t
  after_latest :
      (c : ℕ) (s : Text)
      → All Unversioned (fields b.tag_current)
      → b.tag_latest ≡ c ∷ s
      → Generated b (trim_v (b.tag_latest ++ text "+" ++ b.hash_short))
  initial :
      All Unversioned (fields b.tag_current)
      → b.tag_latest ≡ []
      → Generated b (text "0.0.0+" ++ b.hash_short)

-- what follows the first tag with the prefix v
abbrev version_from : Build → Text → Text
version_from b version = trim_v (
    if not (is_nil version)
    then version
    else if not (is_nil b.tag_latest)
    then b.tag_latest ++ text "+" ++ b.hash_short
    else text "v0.0.0+" ++ b.hash_short)

version_from-Generated :
    (b : Build) (v latest : Text)
    → b.tag_latest ≡ latest
    → FirstVersion (fields b.tag_current) v
    → Generated b (version_from b v)
unfolding text
version_from-Generated b v latest same (FirstVersion.found pre t post at before) =
    Generated.tagged pre t post at before
version_from-Generated b v [] same (FirstVersion.missing none) =
    let empty : is_nil b.tag_latest ≡ true = ap is_nil same in
    rw empty (Generated.initial none same)
version_from-Generated b v (c ∷ s) same (FirstVersion.missing none) =
    let filled : is_nil b.tag_latest ≡ false = ap is_nil same in
    rw filled (Generated.after_latest c s none same)

-- The version generated from the state of the commit is the first of its tags that begins with v; if it
-- has none, the latest tag, a plus sign and the short hash; and if there is no latest tag, 0.0.0, a plus
-- sign and the short hash. A v at the beginning is removed.
pub generated_version-Generated : (b : Build) → Generated b (generated_version b)
unfolding generated_version
generated_version-Generated b =
    version_from-Generated b (first_version (fields b.tag_current)) b.tag_latest refl
      (first_version-FirstVersion (fields b.tag_current))
