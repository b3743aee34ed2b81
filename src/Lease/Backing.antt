-- ===== src/Lease/Backing.antt =====
-- What a grant of manager/lease/lease_table.cpp is worth, also after later calls.
use nmfs.Prelude.{
  ℕ, ◌+◌, ◌≤◌, ◌<◌, Bytes, ◌==◌, ==_iff, ◌≡◌, refl, sym, ap, eq_of_==, ◌∙◌, ◌⊎◌, inl, inr, true,
  false, none, some, arith, Bool-cases, Option-cases,
}
use nmfs.Map.{find, put, find-put, find-put_self}
use nmfs.Lease.Manager.{LeaseEntry, LeaseTable, cas, insert_entry, acquire, lease_period_ms}

-- The manager holds a lease for the name until `due` at least, and the holder is `client`, unless
-- `due` has passed.
pub record IsBacked (table : LeaseTable) (now : ℕ) (name client : Bytes) (due : ℕ) : Type 0 where
  pub entry : LeaseEntry
  pub listed : find name table ≡ some entry
  pub until : due ≤ entry.due
  pub holder : (entry.addr ≡ client) ⊎ (due ≤ now)

-- A lease that is backed stays so as the entry goes through cas().
cas-IsBacked :
    (checked started due now : ℕ) (remote client : Bytes) (e : LeaseEntry)
    → now ≤ checked
    → checked ≤ started
    → due ≤ e.due
    → (e.addr ≡ client) ⊎ (due ≤ now)
    → (due ≤ (cas checked started remote e).0.due)
      × (((cas checked started remote e).0.addr ≡ client) ⊎ (due ≤ started))
unfolding cas
cas-IsBacked checked started due now remote client e h k u (inl own) = ground arith
cas-IsBacked checked started due now remote client e h k u (inr past) = ground arith

cas_granted :
    (checked started : ℕ) (remote : Bytes) (e : LeaseEntry)
    → (cas checked started remote e).1.granted ≡ true
    → ((cas checked started remote e).0.addr ≡ remote)
      × ((cas checked started remote e).1.latest_due ≡ (cas checked started remote e).0.due)
unfolding cas
cas_granted checked started remote e h = ground (arith, ==_iff e.addr remote)

weaken :
    {now started due : ℕ} (addr client : Bytes)
    → now ≤ started
    → (addr ≡ client) ⊎ (due ≤ now)
    → (addr ≡ client) ⊎ (due ≤ started)
weaken addr client h (inl own) = inl own
weaken addr client h (inr past) = inr (omega arith)

-- A lease under another name is not touched by a write.
other_name :
    (table : LeaseTable) (name' : Bytes) (e : LeaseEntry) (now started : ℕ) (name client : Bytes)
    (due : ℕ)
    → now ≤ started
    → (name' == name) ≡ false
    → IsBacked table now name client due
    → IsBacked (put name' e table) started name client due
other_name table name' e now started name client due h d b = record {
  entry = b.entry;
  listed = find-put name' name e table ∙ rw d b.listed;
  until = b.until;
  holder = weaken b.entry.addr client h b.holder;
}

pub later :
    {table : LeaseTable} {now started : ℕ} (name client : Bytes) (due : ℕ)
    → now ≤ started
    → IsBacked table now name client due
    → IsBacked table started name client due
later name client due h b = record {
  entry = b.entry;
  listed = b.listed;
  until = b.until;
  holder = weaken b.entry.addr client h b.holder;
}

live_holder :
    (addr client : Bytes) (due now : ℕ) → now < due → (addr ≡ client) ⊎ (due ≤ now) → addr ≡ client
live_holder addr client due now h (inl own) = own
live_holder addr client due now h (inr past) = absurd (omega arith)

-- Two leases on one name that have not run out are the same client's.
pub one_holder :
    (table : LeaseTable) (now : ℕ) (name a b : Bytes) (due_a due_b : ℕ)
    → now < due_a
    → now < due_b
    → IsBacked table now name a due_a
    → IsBacked table now name b due_b
    → a ≡ b
one_holder table now name a b due_a due_b la lb ba bb =
    let one : ba.entry ≡ bb.entry = cc (sym ba.listed ∙ bb.listed) in
    sym (live_holder ba.entry.addr a due_a now la ba.holder)
    ∙ (ap (λ (e : LeaseEntry). e.addr) one ∙ live_holder bb.entry.addr b due_b now lb bb.holder)

module _ (table : LeaseTable) (name' remote : Bytes) (checked started : ℕ) where
  hit_IsBacked :
      (e : LeaseEntry) (now : ℕ) (name client : Bytes) (due : ℕ)
      → find name' table ≡ some e
      → now ≤ checked
      → checked ≤ started
      → IsBacked table now name client due
      → IsBacked (put name' (cas checked started remote e).0 table) started name client due
  hit_IsBacked e now name client due there h k b = elim (Bool-cases (name' == name)) [
    | inr d ↦ other_name table name' _ now started name client due (omega arith) d b
    | inl same ↦
        let one : e ≡ b.entry =
          cc (sym there ∙ (ap (λ n. find n table) (eq_of_== name' name same) ∙ b.listed)) in
        let (until, holder) =
          cas-IsBacked checked started due now remote client e h k (rw one b.until)
            (rw one b.holder) in
        record {
          entry = (cas checked started remote e).0;
          listed = find-put name' name _ table ∙ rw same;
          until = until;
          holder = holder;
        }
  ]

  miss_IsBacked :
      (e : LeaseEntry) (now : ℕ) (name client : Bytes) (due : ℕ)
      → find name' table ≡ none
      → now ≤ started
      → IsBacked table now name client due
      → IsBacked (put name' e table) started name client due
  miss_IsBacked e now name client due gone h b = elim (Bool-cases (name' == name)) [
    | inr d ↦ other_name table name' _ now started name client due h d b
    | inl same ↦
        absurd (cc (sym gone ∙ (ap (λ n. find n table) (eq_of_== name' name same) ∙ b.listed)))
  ]

  pub insert_entry-IsBacked :
      (now : ℕ) (name client : Bytes) (due : ℕ)
      → now ≤ started
      → IsBacked table now name client due
      → IsBacked (insert_entry name' started remote table).0 started name client due
  unfolding insert_entry
  insert_entry-IsBacked now name client due h b = elim (Option-cases (find name' table)) [
    | inl gone ↦ rw (gone, insert_entry) (miss_IsBacked _ now name client due gone h b)
    | inr (e, there) ↦ rw (there, insert_entry) (later name client due h b)
  ]

  -- Every grant stays backed through a call of acquire(), for whatever name it is.
  pub acquire-IsBacked :
      (now : ℕ) (name client : Bytes) (due : ℕ)
      → now ≤ checked
      → checked ≤ started
      → IsBacked table now name client due
      → IsBacked (acquire name' checked started remote table).0 started name client due
  unfolding acquire
  acquire-IsBacked now name client due h k b = elim (Option-cases (find name' table)) [
    | inl gone ↦ rw (gone, acquire) (insert_entry-IsBacked now name client due (omega arith) b)
    | inr (e, there) ↦ rw (there, acquire) (hit_IsBacked e now name client due there h k b)
  ]

  pub insert_entry_granted :
      (insert_entry name' started remote table).1.granted ≡ true
      → IsBacked
          (insert_entry name' started remote table).0
          started
          name'
          remote
          (insert_entry name' started remote table).1.latest_due
  unfolding insert_entry
  insert_entry_granted = elim (Option-cases (find name' table)) [
    | inl gone ↦
        rw (gone, insert_entry)
          (λ h. record {
            entry = record { due = started + lease_period_ms; addr = remote };
            listed = find-put_self name' _ table;
            until = omega arith;
            holder = inl refl;
          })
    | inr (e, there) ↦
        rw (there, insert_entry)
          (λ h. record {
            entry = e;
            listed = there;
            until = omega arith;
            holder = inl (eq_of_== e.addr remote h);
          })
  ]

  -- What acquire() grants is backed.
  pub acquire_granted :
      (acquire name' checked started remote table).1.granted ≡ true
      → IsBacked
          (acquire name' checked started remote table).0
          started
          name'
          remote
          (acquire name' checked started remote table).1.latest_due
  unfolding acquire
  acquire_granted = elim (Option-cases (find name' table)) [
    | inl gone ↦ rw (gone, acquire) insert_entry_granted
    | inr (e, there) ↦
        rw (there, acquire)
          (λ h.
            let (own, latest) = cas_granted checked started remote e h in
            record {
              entry = (cas checked started remote e).0;
              listed = find-put_self name' _ table;
              until = omega (arith, latest);
              holder = inl own;
            })
  ]
