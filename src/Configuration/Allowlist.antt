-- ===== src/Configuration/Allowlist.antt =====
-- The entries of the allowlist, and that it can be written and read back.
use native.Mathlib.Omega.{arith}
use mattermost_plugin_messag.Base.{
  is_space, is_nil, ℕ, ◌≡◌, refl, ap, ◌∙◌, Bool, true, false, not, ◌||◌, Option, none, some, List,
  [], ◌∷◌, ◌++◌, All, Text, join, text_eq, text_eq_iff, ◌==◌, if◌then◌else◌, Bool-cases, inl, inr,
}
use mattermost_plugin_messag.Configuration.{
  Configuration, trim_left, trim_right, trim_space, onto_first, split, clean,
  purge_schema_allowlist,
}

-- the first character is no space
abbrev pub starts_clean : Text → Bool
starts_clean [] = true
starts_clean (c ∷ s) = not (is_space c)

-- the last character is no space
abbrev pub ends_clean : Text → Bool
ends_clean [] = true
ends_clean (c ∷ s) = if is_nil s then not (is_space c) else ends_clean s

abbrev pub has_comma : Text → Bool
has_comma [] = false
has_comma (c ∷ s) = c == b',' || has_comma s

-- An entry of the list: not empty, no comma, and no space at either end.
pub record IsEntry (e : Text) : Type 0 where
  pub not_empty : is_nil e ≡ false
  pub no_comma : has_comma e ≡ false
  pub starts : starts_clean e ≡ true
  pub ends : ends_clean e ≡ true

trim_left_clean : (s : Text) → starts_clean s ≡ true → trim_left s ≡ s
unfolding trim_left
trim_left_clean [] h = refl
trim_left_clean (c ∷ s) h = ground arith

trim_right_clean : (s : Text) → ends_clean s ≡ true → trim_right s ≡ s
unfolding trim_right
trim_right_clean [] h = refl
trim_right_clean (c ∷ s) h = ground (arith, trim_right_clean s)

trim_space-IsEntry : (s : Text) → IsEntry s → trim_space s ≡ s
unfolding trim_space
trim_space-IsEntry s h = rw (trim_left_clean s h.starts) (trim_right_clean s h.ends)

starts_clean-trim_left : (s : Text) → starts_clean (trim_left s) ≡ true
unfolding trim_left
starts_clean-trim_left [] = refl
starts_clean-trim_left (c ∷ s) = ground (arith, starts_clean-trim_left s)

starts_clean-trim_right : (s : Text) → starts_clean s ≡ true → starts_clean (trim_right s) ≡ true
unfolding trim_right
starts_clean-trim_right [] h = refl
starts_clean-trim_right (c ∷ s) h = ground arith

ends_clean-trim_right : (s : Text) → ends_clean (trim_right s) ≡ true
unfolding trim_right
ends_clean-trim_right [] = refl
ends_clean-trim_right (c ∷ s) = ground (arith, ends_clean-trim_right s)

no_comma-trim_left : (s : Text) → has_comma s ≡ false → has_comma (trim_left s) ≡ false
unfolding trim_left
no_comma-trim_left [] h = refl
no_comma-trim_left (c ∷ s) h = ground (arith, no_comma-trim_left s)

no_comma-trim_right : (s : Text) → has_comma s ≡ false → has_comma (trim_right s) ≡ false
unfolding trim_right
no_comma-trim_right [] h = refl
no_comma-trim_right (c ∷ s) h = ground (arith, no_comma-trim_right s)

IsEntry-trim_space :
    (s : Text) → has_comma s ≡ false → is_nil (trim_space s) ≡ false → IsEntry (trim_space s)
unfolding trim_space
IsEntry-trim_space s h n = record {
  not_empty = n;
  no_comma = no_comma-trim_right (trim_left s) (no_comma-trim_left s h);
  starts = starts_clean-trim_right (trim_left s) (starts_clean-trim_left s);
  ends = ends_clean-trim_right (trim_left s);
}

abbrev NoComma : Text → Type 0
NoComma s = has_comma s ≡ false

onto_first-NoComma :
    (c : ℕ) (parts : List Text)
    → (c == b',') ≡ false
    → All NoComma parts
    → All NoComma (onto_first c parts)
onto_first-NoComma c [] other h = (ground arith, tt)
onto_first-NoComma c (p ∷ parts) other h = (ground arith, h.1)

split-NoComma : (s : Text) → All NoComma (split b',' s)
unfolding split
split-NoComma [] = (refl, tt)
split-NoComma (c ∷ s) = elim (Bool-cases (c == b',')) [
  | inl comma ↦ rw comma (refl, split-NoComma s)
  | inr other ↦ rw other (onto_first-NoComma c (split b',' s) other (split-NoComma s))
]

clean-IsEntry : (parts : List Text) → All NoComma parts → All IsEntry (clean parts)
unfolding clean
clean-IsEntry [] h = tt
clean-IsEntry (e ∷ es) h = elim (Bool-cases (text_eq (trim_space e) [])) [
  | inl empty ↦ rw (empty, clean) (clean-IsEntry es h.1)
  | inr kept ↦
      rw (kept, clean)
        (
          IsEntry-trim_space e h.0 (ground (arith, text_eq_iff (trim_space e) [])),
          clean-IsEntry es h.1,
        )
]

-- No entry that is read from a configuration is empty, holds a comma or has a space at an end, and
-- a nil configuration has no entries.
pub allowlist-IsEntry : (c : Option Configuration) → All IsEntry (purge_schema_allowlist c)
unfolding purge_schema_allowlist
allowlist-IsEntry none = tt
allowlist-IsEntry (some c) =
    clean-IsEntry (split b',' c.purge_schema_allowlist_raw)
      (split-NoComma c.purge_schema_allowlist_raw)

split_single : (e : Text) → has_comma e ≡ false → split b',' e ≡ e ∷ []
unfolding split
split_single [] h = refl
split_single (c ∷ e) h = ground (arith, split_single e)

split-append : (e s : Text) → has_comma e ≡ false → split b',' (e ++ b',' ∷ s) ≡ e ∷ split b',' s
unfolding split
split-append [] s h = refl
split-append (c ∷ e) s h = ground (arith, split-append e s)

clean-cons : (e : Text) (es : List Text) → IsEntry e → clean (e ∷ es) ≡ e ∷ clean es
unfolding clean
clean-cons e es h = ground (arith, trim_space-IsEntry e h, text_eq_iff e [])

-- The allowlist of a text of entries with commas between them.
read : Text → List Text
read s = clean (split b',' s)

read-join : (es : List Text) → All IsEntry es → read (join (b',' ∷ []) es) ≡ es
unfolding read join
read-join [] h = (unfold trim_space trim_left trim_right text_eq clean split in refl)
read-join (e ∷ []) h =
    rw (split_single e h.0.no_comma) (clean-cons e [] h.0 ∙ ap (λ l. e ∷ l) (unfold clean in refl))
read-join (e ∷ f ∷ es) h =
    rw (split-append e (join (b',' ∷ []) (f ∷ es)) h.0.no_comma)
      (clean-cons e _ h.0 ∙ ap (λ l. e ∷ l) (read-join (f ∷ es) h.1))

-- If no entry is empty, holds a comma or has a space at an end, the entries that are written with
-- commas between them are read back.
pub allowlist-join :
    (enable : Bool) (es : List Text)
    → All IsEntry es
    → purge_schema_allowlist
        (some (record { enable_purge = enable; purge_schema_allowlist_raw = join (b',' ∷ []) es }))
      ≡ es
unfolding purge_schema_allowlist read
allowlist-join enable es h = read-join es h
