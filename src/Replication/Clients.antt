-- ===== src/Replication/Clients.antt =====
-- pkg/replication/server.go: the dump clients of the `Server`, what is sent to them, and the
-- steps of its goroutines. A connection is a parameter: what a write makes of it, with whether
-- the write succeeded, and `Close`. `none` is an index out of range in the encoder.
pub mod Encodings
pub mod Delivery
pub mod Packets
pub mod Accounts
pub mod Weights
use my_proxy.Base.{
  ℕ, ◌+◌, ◌*◌, ◌%◌, ◌^◌, Bool, true, false, List, [], ◌∷◌, ◌++◌, Option, none, some, Bytes, codes,
  length, replicate, if◌then◌else◌,
}
use my_proxy.Base.Dict.{Dict, lookup, insert, delete}
use my_proxy.Base.Eq.{nat_eq}
use my_proxy.Base.Wire.{put_le}
use my_proxy.Encoder.Events.{Event}
use my_proxy.Replication.Changes.{ChangeEvent, Core, Now}
use my_proxy.Replication.Events.{advance, convert_to_mysql_events}

pub record DumpClient (Conn : Type 0) : Type 0 where
  pub id : ℕ
  pub server_id : ℕ
  pub conn : Conn
  pub position : Bytes × ℕ
  pub start_time : ℕ
  pub events_sent : ℕ
  pub seq_num : ℕ

-- `closed` is no field of the struct: it is what the calls of `Close` leave outside of it, the
-- connections that were closed, the last one first.
pub record Server (Conn : Type 0) : Type 0 where
  pub core : Core
  pub clients : Dict ℕ (DumpClient Conn)
  pub next_client_id : ℕ
  pub closed : List Conn

-- The packet that `sendBinlogPacketToClient` writes: length, sequence number, a 0, the data.
unfoldable pub packet : ℕ → Bytes → Bytes
packet seq payload = put_le 3 (length payload + 1) ++ seq ∷ 0 ∷ payload

post_header_lengths : Bytes
post_header_lengths =
    0
    ∷ 13
    ∷ 0
    ∷ 8
    ∷ (replicate 12 0
        ++ 8 ∷ 0 ∷ 0 ∷ 8 ∷ 0 ∷ 0 ∷ 0 ∷ 10 ∷ 10 ∷ 10 ∷ 0 ∷ 0 ∷ 0 ∷ 0 ∷ 10 ∷ 10 ∷ 10 ∷ replicate 7 0)

-- The 19 bytes of a header that a server writes itself; the flags are 0.
abbrev own_header : Core → Now → ℕ → ℕ → ℕ → Bytes
own_header s now code size next =
    put_le 4 now.seconds
    ++ (code ∷ put_le 4 s.server_id ++ (put_le 4 size ++ (put_le 4 next ++ put_le 2 0)))

pub format_description_payload : Now → Bytes
format_description_payload now =
    let version = codes "8.0.11-aproxy" in
    4
    ∷ 0
    ∷ (version
        ++ (replicate 37 0 ++ (put_le 4 now.seconds ++ (19 ∷ post_header_lengths ++ 1 ∷ []))))

-- The last four bytes, which hold the checksum, stay 0.
pub format_description_event : Core → Now → Bytes
format_description_event s now =
    let payload = format_description_payload now in
    let size = 19 + length payload + 4 in
    own_header s now 15 size (4 + size) ++ (payload ++ replicate 4 0)

pub heartbeat_event : Core → Now → Bytes
heartbeat_event s now = own_header s now 27 23 s.position ++ replicate 4 0

-- What reaches the server: a COM_BINLOG_DUMP, a change from PostgreSQL, the tick of a client's
-- timer, and the end of a client's stream when the server is stopped.
pub data Input (Conn : Type 0) : Type 0 where
  dump : Conn → ℕ → Bytes × ℕ → Input Conn
  change : ChangeEvent → Input Conn
  tick : ℕ → Input Conn
  done : ℕ → Input Conn

module _ {Conn : Type 0} (write : Conn → Bytes → Conn × Bool) (close : Conn → Conn) where
  -- The sequence number grows whether or not the write succeeds.
  unfoldable pub send_binlog_packet : DumpClient Conn → Bytes → DumpClient Conn × Bool
  send_binlog_packet c payload =
      let written = write c.conn (packet c.seq_num payload) in
      (record c { seq_num = (c.seq_num + 1) % 2 ^ 8; conn = written.0 }, written.1)

  -- The body of the loop over the events: what was sent is counted.
  unfoldable pub send_data : DumpClient Conn → Bytes → DumpClient Conn
  send_data c payload =
      let sent = send_binlog_packet c payload in
      if sent.1 then record sent.0 { events_sent = (sent.0.events_sent + 1) % 2 ^ 64 } else sent.0

  unfoldable pub remove_dump_client : ℕ → Server Conn → Server Conn
  remove_dump_client id s = elim (lookup id s.clients) [
    | none ↦ s
    | some c ↦ record s { clients = delete id s.clients; closed = close c.conn ∷ s.closed }
  ]

  -- A client after a packet: kept with what the write made of it, removed where it failed.
  abbrev keep_or_remove : ℕ → Server Conn → DumpClient Conn × Bool → Server Conn
  keep_or_remove id s (c, sent) =
      let kept = record s { clients = insert id c s.clients } in
      if sent then kept else remove_dump_client id kept

  -- Up to the start of the stream; where the first event cannot be sent the client is removed.
  unfoldable pub handle_binlog_dump : Now → Conn → ℕ → Bytes × ℕ → Server Conn → Server Conn
  handle_binlog_dump now conn server_id position s =
      let id = (s.next_client_id + 1) % 2 ^ 32 in
      let client : DumpClient Conn = record {
        id = id;
        server_id = server_id;
        conn = conn;
        position = position;
        start_time = now.seconds;
        events_sent = 0;
        seq_num = 1;
      } in
      let registered = record s { next_client_id = id; clients = insert id client s.clients } in
      keep_or_remove id registered (send_binlog_packet client (format_description_event s.core now))

  -- A tick of `streamToClient`: where the heartbeat fails, the stream ends and removes the client.
  unfoldable pub stream_tick : Now → ℕ → Server Conn → Server Conn
  stream_tick now id s = elim (lookup id s.clients) [
    | none ↦ s
    | some c ↦ keep_or_remove id s (send_binlog_packet c (heartbeat_event s.core now))
  ]

  module _ (encode : Event → Option Bytes) where
    -- One client's share of the broadcast.
    unfoldable pub send_events : List Event → DumpClient Conn → Option (DumpClient Conn)
    send_events [] c = some c
    send_events (e ∷ events) c = elim (encode e) [
      | none ↦ none
      | some payload ↦ send_events events (send_data c payload)
    ]

    unfoldable pub broadcast :
        List Event → Dict ℕ (DumpClient Conn) → Option (Dict ℕ (DumpClient Conn))
    broadcast events [] = some []
    broadcast events ((id, c) ∷ clients) = elim (send_events events c) [
      | none ↦ none
      | some sent ↦ elim (broadcast events clients) [
        | none ↦ none
        | some rest ↦ some ((id, sent) ∷ rest)
      ]
    ]

    -- Behind the conversion of the change.
    unfoldable pub distribute : Server Conn → Option (Core × List Event) → Option (Server Conn)
    distribute s none = none
    distribute s (some (core, events)) = elim (broadcast events s.clients) [
      | none ↦ none
      | some clients ↦ some (record s { core = advance (length events) core; clients = clients })
    ]

    unfoldable pub process_change_event : Now → ChangeEvent → Server Conn → Option (Server Conn)
    process_change_event now e s = distribute s (convert_to_mysql_events s.core now e)

    unfoldable pub step : Now → Input Conn → Server Conn → Option (Server Conn)
    step now (Input.dump conn server_id position) s =
        some (handle_binlog_dump now conn server_id position s)
    step now (Input.change e) s = process_change_event now e s
    step now (Input.tick id) s = some (stream_tick now id s)
    step now (Input.done id) s = some (remove_dump_client id s)

    unfoldable pub run_inputs : List (Now × Input Conn) → Server Conn → Option (Server Conn)
    run_inputs [] s = some s
    run_inputs ((now, i) ∷ inputs) s = elim (step now i s) [
      | none ↦ none
      | some t ↦ run_inputs inputs t
    ]

    -- The changes alone.
    unfoldable pub process_all : List (Now × ChangeEvent) → Server Conn → Option (Server Conn)
    process_all [] s = some s
    process_all ((now, e) ∷ changes) s = elim (process_change_event now e s) [
      | none ↦ none
      | some t ↦ process_all changes t
    ]

abbrev pub get_position : {Conn : Type 0} → Server Conn → Bytes × ℕ
get_position s = (s.core.position_name, s.core.position)

abbrev pub get_client_count : {Conn : Type 0} → Server Conn → ℕ
get_client_count s = length s.clients
