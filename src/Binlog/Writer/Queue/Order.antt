-- ===== src/Binlog/Writer/Queue/Order.antt =====
-- The channel as a step relation: `Write` from any session, and `asyncWriter` at the other end.
use mathlib.Core.List.{append-nil, append_assoc}
use my_proxy.Base.{
  ◌≤◌, ◌≡◌, sym, ap, ◌∙◌, Option, none, some, not, ◌&&◌, true, List, [], ◌∷◌, ◌++◌, length,
  length-append, arith, if◌then◌else◌,
}
use my_proxy.Binlog.Event.{BinlogEvent}
use my_proxy.Binlog.Writer.Queue.{Front, Refusal, capacity, wanted, write}

pub data Action : Type 0 where
  offer : BinlogEvent → Action
  handle : BinlogEvent → Action
  shut : Action

-- `handle` is the receive in `asyncWriter`, before and behind the close alike.
pub data Step : Front → Action → Front → Type 0 where
  offered : {f g : Front} {e : BinlogEvent} → g ≡ (write e f).0 → Step f (offer e) g
  handled :
      {f g : Front} {e : BinlogEvent} {rest : List BinlogEvent}
      → f.queue ≡ e ∷ rest
      → g ≡ record f { queue = rest }
      → Step f (handle e) g
  closed : {f g : Front} → g ≡ record f { closed = true } → Step f shut g

pub data Steps (f : Front) : List Action → Front → Type 0 where
  start : Steps f [] f
  next :
      {g h : Front} {acts : List Action} {a : Action}
      → Steps f acts g
      → Step g a h
      → Steps f (a ∷ acts) h

-- The last action stands first in a list of actions; both functions list events oldest first.
pub handled_of : List Action → List BinlogEvent
handled_of [] = []
handled_of (offer e ∷ acts) = handled_of acts
handled_of (handle e ∷ acts) = handled_of acts ++ e ∷ []
handled_of (shut ∷ acts) = handled_of acts

-- An event that the filter takes, with what `Write` returned for it: none where it was refused.
abbrev unless_refused : BinlogEvent → Option Refusal → List BinlogEvent
unless_refused e none = e ∷ []
unless_refused e (some refusal) = []

-- The event, where the writer is open, the filter takes it, and `Write` returns no error.
pub accepted_one : Front → BinlogEvent → List BinlogEvent
accepted_one f e =
    if not f.closed && wanted f.config e.event_type then unless_refused e (write e f).1 else []

pub accepted_of : {f g : Front} {acts : List Action} → Steps f acts g → List BinlogEvent
accepted_of start = []
accepted_of (next {g = g} {a = offer e} s st) = accepted_of s ++ accepted_one g e
accepted_of (next {a = handle e} s st) = accepted_of s
accepted_of (next {a = shut} s st) = accepted_of s

queue-write : (e : BinlogEvent) (f : Front) → (write e f).0.queue ≡ f.queue ++ accepted_one f e
unfolding write accepted_one
queue-write e f = ground (arith, append-nil f.queue)

-- From an empty channel, whatever is offered, whenever the receiver runs and whenever the writer is
-- closed: the events handled so far, followed by those that wait, are exactly those that were
-- offered while the writer was open, that the filter takes, and for which `Write` returned no
-- error, in the order of the calls.
pub accepted_of-fifo :
    {f g : Front} {acts : List Action} (s : Steps f acts g)
    → f.queue ≡ []
    → accepted_of s ≡ handled_of acts ++ g.queue
unfolding accepted_of handled_of
accepted_of-fifo start h = sym h
accepted_of-fifo (next {g = g} {acts = acts} {a = offer e} s (offered p)) h =
    ap (λ t. t ++ accepted_one g e) (accepted_of-fifo s h)
    ∙ append_assoc (handled_of acts) g.queue (accepted_one g e)
    ∙ ap (λ t. handled_of acts ++ t) (sym (queue-write e g) ∙ ap (λ (f : Front). f.queue) (sym p))
accepted_of-fifo (next {g = g} {acts = acts} {a = handle e} s (handled q p)) h =
    accepted_of-fifo s h
    ∙ ap (λ t. handled_of acts ++ t) q
    ∙ sym (append_assoc (handled_of acts) (e ∷ []) _)
    ∙ ap (λ (f : Front). (handled_of acts ++ e ∷ []) ++ f.queue) (sym p)
accepted_of-fifo (next {acts = acts} {a = shut} s (closed p)) h =
    accepted_of-fifo s h ∙ ap (λ (f : Front). handled_of acts ++ f.queue) (sym p)

write-bounded :
    (e : BinlogEvent) (f : Front)
    → length f.queue ≤ capacity
    → length (write e f).0.queue ≤ capacity
unfolding write
write-bounded e f h = ground (arith, length-append f.queue (e ∷ []))

-- The channel never holds more than its capacity.
pub Steps-bounded :
    {f g : Front} {acts : List Action}
    → Steps f acts g
    → length f.queue ≤ capacity
    → length g.queue ≤ capacity
Steps-bounded start h = h
Steps-bounded (next {g = g} s (offered {e = e} p)) h = rw p (write-bounded e g (Steps-bounded s h))
Steps-bounded (next s (handled q p)) h = rw p (omega (arith, Steps-bounded s h, ap length q))
Steps-bounded (next s (closed p)) h = rw p (Steps-bounded s h)
