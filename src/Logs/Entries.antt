-- ===== src/Logs/Entries.antt =====
-- checkOldestEntry, and when the inner loop of watchLogs ends.
use native.Mathlib.Omega.{arith}
use mattermost_plugin_messag.Base.{
  ℕ, suc, ◌+◌, ◌≡◌, ◌≢◌, refl, ◌∙◌, true, false, none, some, List, [], ◌∷◌, ◌++◌, length,
  length-append, drop, any, contains, Text, text_eq_refl,
}
use mattermost_plugin_messag.Logs.{index_of, last_or, check_oldest_entry}

index_of_absent : (logs : List Text) (e : Text) → contains logs e ≡ false → index_of logs e ≡ none
unfolding index_of contains any
index_of_absent [] e h = refl
index_of_absent (x ∷ logs) e h = ground (arith, index_of_absent logs e)

index_of-append :
    (seen : List Text) (e : Text) (rest : List Text)
    → contains seen e ≡ false
    → index_of (seen ++ e ∷ rest) e ≡ some (length seen)
unfolding index_of contains any
index_of-append [] e rest h = ground (arith, text_eq_refl e)
index_of-append (x ∷ seen) e rest h = ground (arith, index_of-append seen e rest)

last_or-append :
    (d : Text) (seen : List Text) (e : Text) (rest : List Text)
    → last_or d (seen ++ e ∷ rest) ≡ last_or e rest
unfolding last_or
last_or-append d [] e rest = refl
last_or-append d (x ∷ seen) e rest = last_or-append x seen e rest

drop-append :
    (seen : List Text) (e : Text) (rest : List Text) (n : ℕ)
    → n ≡ suc (length seen)
    → drop n (seen ++ e ∷ rest) ≡ rest
drop-append [] e rest n same = rw same refl
drop-append (x ∷ seen) e rest n same = rw same (drop-append seen e rest (suc (length seen)) refl)

-- If the oldest entry is not among the entries, all of them are new, and the last of them is the
-- new oldest entry.
pub check_oldest_entry_unseen :
    (logs : List Text) (oldest : Text)
    → contains logs oldest ≡ false
    → check_oldest_entry logs oldest ≡ record {
      entries = logs;
      oldest = last_or oldest logs;
      all_new = elim logs [ [] ↦ false | e ∷ es ↦ true ];
    }
unfolding check_oldest_entry last_or
check_oldest_entry_unseen [] oldest h = refl
check_oldest_entry_unseen (e ∷ es) oldest h =
    rw (index_of_absent (e ∷ es) oldest h, check_oldest_entry)

found_last :
    (x : Text) (xs : List Text) (oldest : Text) (i : ℕ)
    → index_of (x ∷ xs) oldest ≡ some i
    → i + 1 ≡ length (x ∷ xs)
    → check_oldest_entry (x ∷ xs) oldest ≡ record { entries = []; oldest = oldest; all_new = false }
unfolding check_oldest_entry
found_last x xs oldest i at last = ground arith

found_before :
    (x : Text) (xs : List Text) (oldest : Text) (i : ℕ)
    → index_of (x ∷ xs) oldest ≡ some i
    → i + 1 ≢ length (x ∷ xs)
    → check_oldest_entry (x ∷ xs) oldest ≡ record {
      entries = drop (i + 1) (x ∷ xs);
      oldest = last_or oldest (x ∷ xs);
      all_new = false;
    }
unfolding check_oldest_entry
found_before x xs oldest i at more = ground arith

-- If it is among them, the new entries are those after its first occurrence, and the last of these is
-- the new oldest entry.
pub check_oldest_entry_seen :
    (seen : List Text) (oldest : Text) (fresh : List Text)
    → contains seen oldest ≡ false
    → check_oldest_entry (seen ++ oldest ∷ fresh) oldest
      ≡ record { entries = fresh; oldest = last_or oldest fresh; all_new = false }
unfolding last_or
check_oldest_entry_seen [] oldest [] h =
    found_last oldest [] oldest 0 (index_of-append [] oldest [] h) (omega arith)
check_oldest_entry_seen [] oldest (n ∷ fresh) h =
    found_before oldest (n ∷ fresh) oldest 0 (index_of-append [] oldest (n ∷ fresh) h) (omega arith)
    ∙ rw (drop-append [] oldest (n ∷ fresh) (0 + 1) (omega arith)) refl
check_oldest_entry_seen (s ∷ seen) oldest [] h =
    found_last s (seen ++ oldest ∷ []) oldest (length (s ∷ seen))
      (index_of-append (s ∷ seen) oldest [] h) (omega (arith, length-append seen (oldest ∷ [])))
check_oldest_entry_seen (s ∷ seen) oldest (n ∷ fresh) h =
    found_before s (seen ++ oldest ∷ n ∷ fresh) oldest (length (s ∷ seen))
      (index_of-append (s ∷ seen) oldest (n ∷ fresh) h)
      (omega (arith, length-append seen (oldest ∷ n ∷ fresh)))
    ∙ rw
        (
          drop-append (s ∷ seen) oldest (n ∷ fresh) (length (s ∷ seen) + 1) (omega arith),
          last_or-append s seen oldest (n ∷ fresh),
        )
        refl
