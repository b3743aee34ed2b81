-- ===== src/Journal/Listing.antt =====
-- The entries of the journal's table and of the map that the commit thread has taken,
-- client/journal/journal_table.hpp: their addresses, and the transactions there.
use nmfs.Prelude.{ℕ, ◌<◌, ◌≤◌, ◌≡◌, Bool, true, false, [], ◌∷◌, ◌++◌, arith, if◌then◌else◌}
use nmfs.Prelude.Tests.{◌==◌}
use nmfs.Map.{Map}
use nmfs.Uuid.{Uuid}
use nmfs.Transaction.{Transaction}
use nmfs.Journal.{store}

-- The addresses fall from one entry to the next, all of them below `n`.
abbrev pub Below : ℕ → Map ℕ → Type 0
Below n [] = Unit {0}
Below n ((k, a) ∷ m) = (a < n) × Below a m

-- Every entry is an open transaction of the directory that it stands under.
abbrev pub AllOpen : (ℕ → Transaction) → Map ℕ → Type 0
AllOpen heap [] = Unit {0}
AllOpen heap ((k, a) ∷ m) = ((heap a).committed ≡ false) × ((heap a).s_ino ≡ k) × AllOpen heap m

abbrev pub listed : ℕ → Map ℕ → Bool
listed a [] = false
listed a ((k, b) ∷ m) = if a == b then true else listed a m

-- A write to a transaction that is in no entry.
pub AllOpen-store_above :
    (n a : ℕ) (x : Transaction) (heap : ℕ → Transaction) (m : Map ℕ)
    → n ≤ a
    → Below n m
    → AllOpen heap m
    → AllOpen (store a x heap) m
AllOpen-store_above n a x heap [] h b o = tt
AllOpen-store_above n a x heap ((k, b) ∷ m) h (low, below) (open_, ino, rest) =
    let other : (a == b) ≡ false = ground arith in
    (rw other open_, rw other ino, AllOpen-store_above b a x heap m (omega arith) below rest)

-- A write that leaves a transaction open or committed, and its directory.
pub AllOpen-store_same :
    (a : ℕ) (x : Transaction) (heap : ℕ → Transaction) (m : Map ℕ)
    → x.committed ≡ (heap a).committed
    → x.s_ino ≡ (heap a).s_ino
    → AllOpen heap m
    → AllOpen (store a x heap) m
AllOpen-store_same a x heap [] c i o = tt
AllOpen-store_same a x heap ((k, b) ∷ m) c i (open_, ino, rest) =
    (ground arith, ground arith, AllOpen-store_same a x heap m c i rest)

pub Below-more : (n n' : ℕ) (m : Map ℕ) → n ≤ n' → Below n m → Below n' m
Below-more n n' [] h b = tt
Below-more n n' ((k, a) ∷ m) h (low, below) = (omega arith, below)

-- The entries behind a first part lie below it.
pub Below-behind :
    (n : ℕ) (m : Map ℕ) (k : Uuid) (a : ℕ) (rest : Map ℕ) → Below n (m ++ (k, a) ∷ rest) → a < n
Below-behind n [] k a rest (low, below) = low
Below-behind n ((k', b) ∷ m) k a rest (low, below) =
    let h : a < b = Below-behind b m k a rest below in omega arith

pub Below-without :
    (n : ℕ) (m : Map ℕ) (k : Uuid) (a : ℕ) (rest : Map ℕ)
    → Below n (m ++ (k, a) ∷ rest)
    → Below n (m ++ rest)
Below-without n [] k a rest (low, below) = Below-more a n rest (omega arith) below
Below-without n ((k', b) ∷ m) k a rest (low, below) = (low, Below-without b m k a rest below)

-- A transaction that is taken out may be written: no other entry is at its address.
pub AllOpen-without :
    (n : ℕ) (x : Transaction) (heap : ℕ → Transaction) (m : Map ℕ) (k : Uuid) (a : ℕ) (rest : Map ℕ)
    → Below n (m ++ (k, a) ∷ rest)
    → AllOpen heap (m ++ (k, a) ∷ rest)
    → AllOpen (store a x heap) (m ++ rest)
AllOpen-without n x heap [] k a rest (low, below) (_, _, others) =
    AllOpen-store_above a a x heap rest (omega arith) below others
AllOpen-without n x heap ((k', b) ∷ m) k a rest (low, below) (open_, ino, others) =
    let h : a < b = Below-behind b m k a rest below in
    let other : (a == b) ≡ false = ground arith in
    (rw other open_, rw other ino, AllOpen-without b x heap m k a rest below others)

pub listed-without :
    (b a : ℕ) (m : Map ℕ) (k : Uuid) (rest : Map ℕ)
    → (b == a) ≡ false
    → listed b (m ++ (k, a) ∷ rest) ≡ listed b (m ++ rest)
listed-without b a [] k rest h = rw h
listed-without b a ((k', c) ∷ m) k rest h = ground (arith, listed-without b a m k rest h)
