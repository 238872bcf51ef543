-- ===== src/Seq/Laws.antt =====
-- What a run of seqStore calls leaves behind: the high-water marks, and their copy in storage.
use dfchat.Common.{
  ℕ, ◌-◌, max, String, ◌≡◌, refl, false, List, [], ◌∷◌, arith, if◌then◌else◌, ◌or_else◌, ◌==◌,
  eq_iff,
}
use dfchat.Common.Dict.{get, get-put}
use dfchat.Seq.{SeqStore, Saved, load, start, bump_last, mark_read, clear_all, unread_of}

-- A call of the store.
pub data Call : Type 0 where
  bump read : String → ℕ → Call
  clear : Call

unfoldable pub step : Call → SeqStore → SeqStore
step (bump c q) s = bump_last c q s
step (read c q) s = mark_read c q s
step clear s = clear_all s

unfoldable pub run : List Call → SeqStore → SeqStore
run [] s = s
run (k ∷ ks) s = run ks (step k s)

abbrev pub last_of : SeqStore → String → ℕ
last_of s c = get c s.last or_else 0

abbrev pub read_of : SeqStore → String → ℕ
read_of s c = get c s.read or_else 0

pub last_of-bump_last :
    (c j : String) (q : ℕ) (s : SeqStore)
    → last_of (bump_last c q s) j ≡ (if c == j then max (last_of s j) q else last_of s j)
unfolding bump_last
last_of-bump_last c j q s = ground (arith, eq_iff c j, get-put c j q s.last)

pub read-bump_last : (c : String) (q : ℕ) (s : SeqStore) → (bump_last c q s).read ≡ s.read
unfolding bump_last
read-bump_last c q s = ground arith

pub last-mark_read : (c : String) (q : ℕ) (s : SeqStore) → (mark_read c q s).last ≡ s.last
unfolding mark_read
last-mark_read c q s = ground arith

pub read_of-mark_read :
    (c j : String) (q : ℕ) (s : SeqStore)
    → read_of (mark_read c q s) j ≡ (if c == j then max (read_of s j) q else read_of s j)
unfolding mark_read
read_of-mark_read c j q s = ground (arith, eq_iff c j, get-put c j q s.read)

-- The highest number that the calls report for a conversation since the last `clearAll`, over a
-- first value.
abbrev pub highest_bump : String → ℕ → List Call → ℕ
highest_bump j n [] = n
highest_bump j n (bump c q ∷ ks) = highest_bump j (if c == j then max n q else n) ks
highest_bump j n (read c q ∷ ks) = highest_bump j n ks
highest_bump j n (clear ∷ ks) = highest_bump j 0 ks

abbrev pub highest_read : String → ℕ → List Call → ℕ
highest_read j n [] = n
highest_read j n (bump c q ∷ ks) = highest_read j n ks
highest_read j n (read c q ∷ ks) = highest_read j (if c == j then max n q else n) ks
highest_read j n (clear ∷ ks) = highest_read j 0 ks

last_of-run :
    (ks : List Call) (s : SeqStore) (j : String)
    → last_of (run ks s) j ≡ highest_bump j (last_of s j) ks
unfolding run step clear_all get
last_of-run [] s j = refl
last_of-run (bump c q ∷ ks) s j =
    ground (arith, last_of-run ks (bump_last c q s) j, last_of-bump_last c j q s)
last_of-run (read c q ∷ ks) s j =
    ground (arith, last_of-run ks (mark_read c q s) j, last-mark_read c q s)
last_of-run (clear ∷ ks) s j = last_of-run ks (clear_all s) j

read_of-run :
    (ks : List Call) (s : SeqStore) (j : String)
    → read_of (run ks s) j ≡ highest_read j (read_of s j) ks
unfolding run step clear_all get
read_of-run [] s j = refl
read_of-run (bump c q ∷ ks) s j =
    ground (arith, read_of-run ks (bump_last c q s) j, read-bump_last c q s)
read_of-run (read c q ∷ ks) s j =
    ground (arith, read_of-run ks (mark_read c q s) j, read_of-mark_read c j q s)
read_of-run (clear ∷ ks) s j = read_of-run ks (clear_all s) j

-- After any calls in any order, the unread count of a conversation is the highest number received
-- for it less the highest number read, each since the last `clearAll`, and 0 where that is negative.
pub unread_of-run :
    (ks : List Call) (s : SeqStore) (j : String)
    → unread_of j (run ks s)
      ≡ highest_bump j (get j s.last or_else 0) ks - highest_read j (get j s.read or_else 0) ks
unfolding unread_of
unread_of-run ks s j = ground (arith, last_of-run ks s j, read_of-run ks s j)

-- Storage holds what memory holds.
pub record IsMirrored (s : SeqStore) : Type 0 where
  pub last : load s.stored_last ≡ s.last
  pub read : load s.stored_read ≡ s.read

pub step-IsMirrored :
    (k : Call) (s : SeqStore) → s.quota ≡ false → IsMirrored s → IsMirrored (step k s)
unfolding step bump_last mark_read clear_all load
step-IsMirrored (bump c q) s room m = ground arith
step-IsMirrored (read c q) s room m = ground arith
step-IsMirrored clear s room m = record { last = refl; read = refl }

quota-step : (k : Call) (s : SeqStore) → (step k s).quota ≡ s.quota
unfolding step bump_last mark_read clear_all
quota-step (bump c q) s = ground arith
quota-step (read c q) s = ground arith
quota-step clear s = refl

run-IsMirrored :
    (ks : List Call) (s : SeqStore) → s.quota ≡ false → IsMirrored s → IsMirrored (run ks s)
unfolding run
run-IsMirrored [] s room m = m
run-IsMirrored (k ∷ ks) s room m =
    run-IsMirrored ks (step k s) (ground (arith, quota-step k s)) (step-IsMirrored k s room m)

-- As long as localStorage takes the writes, a restart after any calls finds the two maps as the
-- calls left them, whatever text storage held when the program first started.
pub start-run :
    (ks : List Call) (stored_last stored_read : Saved)
    → let s = run ks (start false stored_last stored_read) in
      let again = start false s.stored_last s.stored_read in
      (again.last ≡ s.last) × (again.read ≡ s.read)
unfolding start
start-run ks stored_last stored_read =
    let m =
      run-IsMirrored ks (start false stored_last stored_read) refl
        (record { last = refl; read = refl }) in
    (m.last, m.read)
