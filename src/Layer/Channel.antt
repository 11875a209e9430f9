-- ===== src/Layer/Channel.antt =====
-- tokio's `mpsc` channel as src/layer.rs uses it: what is received was sent, in order, and the end
-- comes when nothing is queued and no sender is left.
use zmux_python.Prelude.{
  ℕ, ◌≡◌, refl, Bool, true, false, Option, none, some, List, [], ◌∷◌, ◌++◌, arith,
}

pub data Poll {ℓ} (A : Type ℓ) : Type ℓ where
  ready : A → Poll A
  pending : Poll A

-- A message: `Bytes`
abbrev pub Bytes : Type 0
Bytes = List ℕ

pub record Channel : Type 1 where
  pub Chan : Type 0
  pub queued : Chan → List Bytes
  pub poll_recv : Chan → Poll (Option Bytes) × Chan
  pub send : Bytes → Chan → Chan
  pub queued-send : (b : Bytes) (c : Chan) → queued (send b c) ≡ queued c ++ b ∷ []
  -- A poll may be pending while messages are queued, when the task's budget is used up.
  pub poll_some :
      (b : Bytes) (c : Chan)
      → (poll_recv c).0 ≡ ready (some b)
      → queued c ≡ b ∷ queued (poll_recv c).1
  pub poll_none :
      (c : Chan) → (poll_recv c).0 ≡ ready none → (queued c ≡ []) × (queued (poll_recv c).1 ≡ [])
  pub poll_pending : (c : Chan) → (poll_recv c).0 ≡ pending → queued (poll_recv c).1 ≡ queued c

-- A queue of the messages, and whether senders are left.
abbrev Queue : Type 0
Queue = List Bytes × Bool

abbrev pop : Queue → Poll (Option Bytes) × Queue
pop (b ∷ bs, open_) = (ready (some b), (bs, open_))
pop ([], true) = (pending, ([], true))
pop ([], false) = (ready none, ([], false))

pub pop-some : (b : Bytes) (c : Queue) → (pop c).0 ≡ ready (some b) → c.0 ≡ b ∷ (pop c).1.0
pop-some b (x ∷ xs, o) e = ground arith
pop-some b ([], true) e = absurd (cc)
pop-some b ([], false) e = absurd (cc)

pub pop-none : (c : Queue) → (pop c).0 ≡ ready none → (c.0 ≡ []) × ((pop c).1.0 ≡ [])
pop-none (x ∷ xs, o) e = absurd (cc)
pop-none ([], true) e = absurd (cc)
pop-none ([], false) e = (refl, refl)

pub pop-pending : (c : Queue) → (pop c).0 ≡ pending → (pop c).1.0 ≡ c.0
pop-pending (x ∷ xs, o) e = absurd (cc)
pop-pending ([], true) e = refl
pop-pending ([], false) e = absurd (cc)

abbrev pub queue : Channel
queue = record {
  Chan = Queue;
  queued = λ c. c.0;
  poll_recv = pop;
  send = λ b c. (c.0 ++ b ∷ [], c.1);
  queued-send = λ b c. refl;
  poll_some = pop-some;
  poll_none = pop-none;
  poll_pending = pop-pending;
}
