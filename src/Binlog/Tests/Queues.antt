-- ===== src/Binlog/Tests/Queues.antt =====
-- The channel on two events, a restart on an existing file, and a clean-up.
use my_proxy.Base.{◌≡◌, refl, false, List, [], ◌∷◌, ◌++◌}
use my_proxy.Base.Eq.{nat_eq}
use my_proxy.Binlog.Event.{EventType, BinlogEvent}
use my_proxy.Binlog.Writer.Queue.{Front, wanted, write}
use my_proxy.Binlog.Writer.Queue.Order.{
  offer, handle, Steps, start, next, offered, handled, handled_of, accepted_of, accepted_of-fifo,
}
use my_proxy.Binlog.Tests.{insert_item, small_config}

abbrev front : List BinlogEvent → Front
front queue = record { config = small_config; queue = queue; closed = false }

abbrev query_event : BinlogEvent
query_event = record insert_item { event_type = EventType.query }

-- An insert is accepted, a query is not wanted, and the receiver takes the insert.
abbrev three_steps :
    Steps (front []) (handle insert_item ∷ offer query_event ∷ offer insert_item ∷ []) (front [])
unfolding write wanted
three_steps =
    next
      (next (next start (offered {g = front (insert_item ∷ [])} refl))
        (offered {g = front (insert_item ∷ [])} refl))
      (handled refl refl)

accepted_of-fifo_example :
    accepted_of three_steps
    ≡ handled_of (handle insert_item ∷ offer query_event ∷ offer insert_item ∷ []) ++ []
accepted_of-fifo_example = accepted_of-fifo three_steps refl
