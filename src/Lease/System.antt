-- ===== src/Lease/System.antt =====
-- The leases of a whole system: the manager, its clients and the answers on their way, stepping in
-- any order (manager/lease/lease_table.cpp, client/lease/lease_table_client.cpp). All machines read
-- one clock.
use nmfs.Prelude.{ℕ, ◌≤◌, Bytes, ◌==◌, ◌≡◌, List, [], ◌∷◌, ◌++◌, if◌then◌else◌}
use nmfs.Uuid.{Uuid}
use nmfs.Uuid.Halves.{IsUuid}
use nmfs.Lease.Manager as M
use nmfs.Lease.Client as C

-- An answer of the manager on its way to a client.
pub record Mail : Type 0 where
  pub to : Bytes
  pub ino : Uuid
  pub response : M.LeaseResponse

pub record World : Type 0 where
  pub now : ℕ
  pub table : M.LeaseTable
  pub clients : Bytes → C.LeaseTable
  pub mail : List Mail

abbrev pub give : Bytes → C.LeaseTable → (Bytes → C.LeaseTable) → Bytes → C.LeaseTable
give a table clients b = if a == b then table else clients b

-- The table of a client after lease_client::acquire() has taken the answer.
abbrev pub received : Mail → C.LeaseTable → C.LeaseTable
received m table = (C.take_response m.ino m.response [] table).0

module _ (to_string : Uuid → Bytes) where
  -- What can happen next. `serves` is a call of the manager's acquire() whose two blocks see the
  -- same table, and `inserts` the second block of one whose first block found no entry, at a table
  -- that may hold one by now. An answer is delivered late or never, and out of order.
  pub data Step : World → World → Type 0 where
    ticks : (w : World) (t : ℕ) → w.now ≤ t → Step w (record w { now = t })
    serves :
        (w : World) (a : Bytes) (ino : Uuid) (checked started : ℕ)
        → IsUuid ino
        → w.now ≤ checked
        → checked ≤ started
        → Step w (record w {
          now = started;
          table = (M.serve to_string checked started (C.make_request ino a) w.table).0;
          mail =
              record {
                to = a;
                ino = ino;
                response = (M.serve to_string checked started (C.make_request ino a) w.table).1;
              }
              ∷ w.mail;
        })
    inserts :
        (w : World) (a : Bytes) (ino : Uuid) (started : ℕ)
        → w.now ≤ started
        → Step w (record w {
          now = started;
          table = (M.insert_entry (to_string ino) started a w.table).0;
          mail =
              record {
                to = a;
                ino = ino;
                response = M.response_of (M.insert_entry (to_string ino) started a w.table).1;
              }
              ∷ w.mail;
        })
    delivers :
        (w : World) (before behind : List Mail) (m : Mail)
        → w.mail ≡ before ++ m ∷ behind
        → Step w (record w {
          clients = give m.to (received m (w.clients m.to)) w.clients;
          mail = before ++ behind;
        })
    loses :
        (w : World) (before behind : List Mail) (m : Mail)
        → w.mail ≡ before ++ m ∷ behind
        → Step w (record w { mail = before ++ behind })

  pub data Reach (w : World) : World → Type 0 where
    here : Reach w w
    next : {v u : World} → Reach w v → Step v u → Reach w u
