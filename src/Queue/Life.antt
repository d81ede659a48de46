-- ===== src/Queue/Life.antt =====
-- The life of a job, apart from the tables: which changes of status there are, and what of a row never
-- changes. The children prove that the statements of src/database.rs keep to it.
pub mod Refines
pub mod Ends
use fire_ctrl.Prelude.{◌≡◌, refl, ◌∙◌, true, List, [], ◌∷◌, ◌++◌, All}
use fire_ctrl.Models.{JobStatus}
use fire_ctrl.Queue.Table.{JobRow}
use fire_ctrl.Queue.Consistent.{is_finished}

-- One change of status. A worker reports an end of its job whatever has become of it meanwhile.
pub data Moves : JobStatus → JobStatus → Type 0 where
  claimed : Moves JobStatus.queued JobStatus.active
  requeued : Moves JobStatus.active JobStatus.queued
  cancelled_queued : Moves JobStatus.queued JobStatus.cancelled
  cancelled_active : Moves JobStatus.active JobStatus.cancelled
  completed : {s : JobStatus} → Moves s JobStatus.completed
  failed : {s : JobStatus} → Moves s JobStatus.failed

pub data Life : JobStatus → JobStatus → Type 0 where
  stays : {s : JobStatus} → Life s s
  later : {s t u : JobStatus} → Moves s t → Life t u → Life s u

pub Life-trans : {s t u : JobStatus} → Life s t → Life t u → Life s u
Life-trans Life.stays k = k
Life-trans (Life.later m l) k = Life.later m (Life-trans l k)

-- No change of status leads back from an end.
pub Life-is_finished : {s t : JobStatus} → Life s t → is_finished s ≡ true → is_finished t ≡ true
Life-is_finished Life.stays h = h
Life-is_finished (Life.later m l) h = Life-is_finished l (end m h)
  where
    end : {s t : JobStatus} → Moves s t → is_finished s ≡ true → is_finished t ≡ true
    end Moves.claimed h = cc
    end Moves.requeued h = cc
    end Moves.cancelled_queued h = refl
    end Moves.cancelled_active h = refl
    end Moves.completed h = refl
    end Moves.failed h = refl

-- The second row is what has become of the first one.
pub record Continues (r s : JobRow) : Type 0 where
  pub id : s.id ≡ r.id
  pub created_at : s.created_at ≡ r.created_at
  pub payload : s.payload ≡ r.payload
  pub priority : s.priority ≡ r.priority
  pub owner_id : s.owner_id ≡ r.owner_id
  pub channel : s.listen_channel_id ≡ r.listen_channel_id
  pub life : Life r.status s.status

-- A row that an INSERT has made, and what has become of it.
pub data IsBorn (r : JobRow) : Type 0 where
  born_queued : Life JobStatus.queued r.status → IsBorn r
  born_completed : Life JobStatus.completed r.status → IsBorn r

-- What may become of a table: each row continues, and new rows come behind.
pub data Evolves : List JobRow → List JobRow → Type 0 where
  grows : {rs : List JobRow} → All IsBorn rs → Evolves [] rs
  continues :
      {r s : JobRow} {rs ss : List JobRow}
      → Continues r s
      → Evolves rs ss
      → Evolves (r ∷ rs) (s ∷ ss)

pub Continues-refl : (r : JobRow) → Continues r r
Continues-refl r = record {
  id = refl;
  created_at = refl;
  payload = refl;
  priority = refl;
  owner_id = refl;
  channel = refl;
  life = Life.stays;
}

pub Continues-trans : {r s t : JobRow} → Continues r s → Continues s t → Continues r t
Continues-trans h k = record {
  id = k.id ∙ h.id;
  created_at = k.created_at ∙ h.created_at;
  payload = k.payload ∙ h.payload;
  priority = k.priority ∙ h.priority;
  owner_id = k.owner_id ∙ h.owner_id;
  channel = k.channel ∙ h.channel;
  life = Life-trans h.life k.life;
}

pub IsBorn-Continues : {r s : JobRow} → Continues r s → IsBorn r → IsBorn s
IsBorn-Continues h (IsBorn.born_queued l) = IsBorn.born_queued (Life-trans l h.life)
IsBorn-Continues h (IsBorn.born_completed l) = IsBorn.born_completed (Life-trans l h.life)

Evolves-IsBorn : {rs ss : List JobRow} → Evolves rs ss → All IsBorn rs → All IsBorn ss
Evolves-IsBorn (Evolves.grows n) b = n
Evolves-IsBorn (Evolves.continues h e) b = (IsBorn-Continues h b.0, Evolves-IsBorn e b.1)

pub Evolves-trans : {rs ss ts : List JobRow} → Evolves rs ss → Evolves ss ts → Evolves rs ts
Evolves-trans (Evolves.grows n) k = Evolves.grows (Evolves-IsBorn k n)
Evolves-trans (Evolves.continues h e) (Evolves.continues h' k) =
    Evolves.continues (Continues-trans h h') (Evolves-trans e k)

pub Evolves-append : (rs new : List JobRow) → All IsBorn new → Evolves rs (rs ++ new)
Evolves-append [] new h = Evolves.grows h
Evolves-append (r ∷ rs) new h = Evolves.continues (Continues-refl r) (Evolves-append rs new h)

pub Evolves-refl : (rs : List JobRow) → Evolves rs rs
Evolves-refl [] = Evolves.grows tt
Evolves-refl (r ∷ rs) = Evolves.continues (Continues-refl r) (Evolves-refl rs)
