-- ===== src/Lease/Exclusion.antt =====
-- Which clients of the system of Lease/System take themselves for the leader of a directory
-- (client/lease/lease_table_client.cpp).
use nmfs.Prelude.{
  ℕ, ◌<◌, Bytes, ◌==◌, ==_iff, eq_of_==, ◌≡◌, sym, ◌∙◌, ◌⊎◌, inl, inr, Bool, true, some, List, [],
  ◌∷◌, ◌++◌, arith, Bool-cases, Option-cases,
}
use nmfs.Map.{find, find-put, find-empty}
use nmfs.Uuid.{Uuid}
use nmfs.Uuid.Halves.{IsUuid, splice-halves}
use nmfs.Lease.Manager as M
use nmfs.Lease.Client as C
use nmfs.Lease.Backing.{
  IsBacked, acquire-IsBacked, insert_entry-IsBacked, acquire_granted, insert_entry_granted, later,
  one_holder,
}
use nmfs.Lease.System.{
  Mail, World, give, received, Step, ticks, serves, inserts, delivers, loses, Reach, here, next,
}

-- An entry of a client's table after update() is an old one or the one that came.
update_cases :
    (i j : Uuid) (due : ℕ) (mine : Bool) (table : C.LeaseTable) (e : C.LeaseEntry)
    → find j (C.update i due mine table) ≡ some e
    → (find j table ≡ some e) ⊎ ((i ≡ j) × (e.due ≡ due) × (e.leader ≡ mine))
unfolding C.update
update_cases i j due mine table e h = elim (Option-cases (find i table)) [
  | inl gone ↦
      let h' = rw (gone, C.update) at h in
      ground (arith, ==_iff i j, find-put i j (record { due = due; leader = mine }) table)
  | inr (old, there) ↦
      let h' = rw (there, C.update) at h in
      ground (arith, ==_iff i j, find-put i j (C.set_info due mine old) table)
]

module _ (to_string : Uuid → Bytes) where
  abbrev Sent : M.LeaseTable → ℕ → Mail → Type 0
  Sent table now m =
      m.response.ret ≡ true → IsBacked table now (to_string m.ino) m.to m.response.due

  abbrev AllSent : M.LeaseTable → ℕ → List Mail → Type 0
  AllSent table now [] = Unit {0}
  AllSent table now (m ∷ mail) = Sent table now m × AllSent table now mail

  abbrev Held : M.LeaseTable → ℕ → Bytes → C.LeaseTable → Type 0
  Held table now a leases =
      (ino : Uuid) (e : C.LeaseEntry)
      → find ino leases ≡ some e
      → e.leader ≡ true
      → IsBacked table now (to_string ino) a e.due

  -- Every lease that a client holds, or is about to be told of, is backed by the manager.
  record IsSafe (w : World) : Type 0 where
    held : (a : Bytes) → Held w.table w.now a (w.clients a)
    sent : AllSent w.table w.now w.mail

  -- A change of the table and the clock under which every lease stays backed.
  abbrev Keeps : M.LeaseTable → ℕ → M.LeaseTable → ℕ → Type 0
  Keeps table now table' now' =
      (name client : Bytes) (due : ℕ)
      → IsBacked table now name client due
      → IsBacked table' now' name client due

  AllSent-Keeps :
      (table table' : M.LeaseTable) (now now' : ℕ) (mail : List Mail)
      → Keeps table now table' now'
      → AllSent table now mail
      → AllSent table' now' mail
  AllSent-Keeps table table' now now' [] k h = tt
  AllSent-Keeps table table' now now' (m ∷ mail) k h = (
    λ r. k (to_string m.ino) m.to m.response.due (h.0 r),
    AllSent-Keeps table table' now now' mail k h.1,
  )

  AllSent-split :
      (table : M.LeaseTable) (now : ℕ) (before behind : List Mail) (m : Mail)
      → AllSent table now (before ++ m ∷ behind)
      → Sent table now m × AllSent table now (before ++ behind)
  AllSent-split table now [] behind m h = h
  AllSent-split table now (b ∷ before) behind m h =
      let (own, rest) = AllSent-split table now before behind m h.1 in (own, (h.0, rest))

  manager_step :
      (w : World) (table' : M.LeaseTable) (now' : ℕ) (m : Mail)
      → Keeps w.table w.now table' now'
      → Sent table' now' m
      → IsSafe w
      → IsSafe (record w { now = now'; table = table'; mail = m ∷ w.mail })
  manager_step w table' now' m k new v = record {
    held = λ a ino e there mine. k (to_string ino) a e.due (v.held a ino e there mine);
    sent = (new, AllSent-Keeps w.table table' w.now now' w.mail k v.sent);
  }

  -- serve() with the request of a client is acquire() for its inode number.
  serve_request :
      (checked started : ℕ) (a : Bytes) (ino : Uuid) (table : M.LeaseTable)
      → IsUuid ino
      → M.serve to_string checked started (C.make_request ino a) table ≡ (
        (M.acquire (to_string ino) checked started a table).0,
        M.response_of (M.acquire (to_string ino) checked started a table).1,
      )
  unfolding M.serve C.make_request
  serve_request checked started a ino table u = rw (splice-halves ino u)

  received-Held :
      (table : M.LeaseTable) (now : ℕ) (m : Mail) (leases : C.LeaseTable)
      → Sent table now m
      → Held table now m.to leases
      → Held table now m.to (received m leases)
  unfolding C.take_response C.update
  received-Held table now m leases sent held ino e there mine =
      elim (update_cases m.ino ino m.response.due m.response.ret leases e there) [
        | inl old ↦ held ino e old mine
        | inr (same, due, ret) ↦ rw (← same, due) (sent (sym ret ∙ mine))
      ]

  give-Held :
      (w : World) (m : Mail)
      → Sent w.table w.now m
      → ((a : Bytes) → Held w.table w.now a (w.clients a))
      → (a : Bytes) → Held w.table w.now a (give m.to (received m (w.clients m.to)) w.clients a)
  give-Held w m sent held a = elim (Bool-cases (m.to == a)) [
    | inr other ↦ rw other (held a)
    | inl same ↦
        rw (same, ← eq_of_== m.to a same)
          (received-Held w.table w.now m (w.clients m.to) sent (held m.to))
  ]

  Step-IsSafe : {w v : World} → Step to_string w v → IsSafe w → IsSafe v
  Step-IsSafe (ticks w t h) v = record {
    held = λ a ino e there mine. later (to_string ino) a e.due h (v.held a ino e there mine);
    sent =
        AllSent-Keeps w.table w.table w.now t w.mail (λ name client due. later name client due h)
          v.sent;
  }
  Step-IsSafe (serves w a ino checked started u h k) v =
      rw (serve_request checked started a ino w.table u) (
        manager_step w _ started _
          (λ name client due.
            acquire-IsBacked w.table (to_string ino) a checked started w.now name client due h k)
          (acquire_granted w.table (to_string ino) a checked started) v)
  Step-IsSafe (inserts w a ino started h) v =
      manager_step w _ started _
        (λ name client due.
          insert_entry-IsBacked w.table (to_string ino) a started started w.now name client due h)
        (insert_entry_granted w.table (to_string ino) a started started) v
  Step-IsSafe (delivers w before behind m e) v =
      let (own, rest) = AllSent-split w.table w.now before behind m (rw e at v.sent) in
      record { held = give-Held w m own v.held; sent = rest }
  Step-IsSafe (loses w before behind m e) v =
      let (own, rest) = AllSent-split w.table w.now before behind m (rw e at v.sent) in
      record { held = v.held; sent = rest }

  -- No client has a lease, and no answer is on its way.
  pub record IsFresh (w : World) : Type 0 where
    pub no_leases : (a : Bytes) → w.clients a ≡ []
    pub no_mail : w.mail ≡ []

  IsFresh-IsSafe : (w : World) → IsFresh w → IsSafe w
  IsFresh-IsSafe w f = record {
    held =
        λ a ino e there mine. absurd (cc (there, f.no_leases a, find-empty {V = C.LeaseEntry} ino));
    sent = rw f.no_mail tt;
  }

  Reach-IsSafe : {w v : World} → IsSafe w → Reach to_string w v → IsSafe v
  Reach-IsSafe h here = h
  Reach-IsSafe h (next r s) = Step-IsSafe s (Reach-IsSafe h r)

  mine_entry :
      (ino : Uuid) (now : ℕ) (table : C.LeaseTable)
      → C.is_mine ino now table ≡ true
      → (e : C.LeaseEntry) × (find ino table ≡ some e) × (e.leader ≡ true) × (now < e.due)
  unfolding C.is_mine
  mine_entry ino now table h = ground arith

  -- From a start where no client holds a lease, whatever the calls, delays and losses of answers:
  -- at no moment do two clients both find that the lease of one directory is theirs.
  pub one_leader :
      (w v : World)
      → IsFresh w
      → Reach to_string w v
      → (ino : Uuid) (a b : Bytes) → C.is_mine ino v.now (v.clients a) ≡ true
      → C.is_mine ino v.now (v.clients b) ≡ true
      → a ≡ b
  one_leader w v f r ino a b ha hb =
      let safe = Reach-IsSafe (IsFresh-IsSafe w f) r in
      let (ea, there_a, mine_a, live_a) = mine_entry ino v.now (v.clients a) ha in
      let (eb, there_b, mine_b, live_b) = mine_entry ino v.now (v.clients b) hb in
      let ba = safe.held a ino ea there_a mine_a in
      let bb = safe.held b ino eb there_b mine_b in
      one_holder v.table v.now (to_string ino) a b ea.due eb.due live_a live_b ba bb
