-- ===== src/Tests/Model.antt =====
-- A QUIC library and its surroundings for the tests: a stream takes four bytes at a time.
use nanwei_api_rust.Prelude.{
  ℕ, ◌+◌, min, ◌≡◌, ◌≢◌, ◌≤◌, refl, ◌<◌, Bool, true, false, List, [], ◌∷◌, ◌++◌, none, some, length,
  take, arith, nat_eq, nat_beq, nat_beq_iff, if◌then◌else◌,
}
use nanwei_api_rust.Prelude.Run.{Run, ok, err, panicked}
use nanwei_api_rust.Quiche.{
  Error, Result, success, failure, v4, SocketAddr, initial, Header, Quiche, SendLaws, IdLaws,
}
use nanwei_api_rust.Os.{Os}
use nanwei_api_rust.Outgoing.{Datagram}
use nanwei_api_rust.Server.Packet.{Env, Server}

pub record Link : Type 0 where
  pub id : List ℕ
  pub closed : Bool
  pub established : Bool
  pub log : ℕ → List ℕ
  pub queue : List Datagram

abbrev pub link : Link
link = record { id = 1 ∷ 2 ∷ []; closed = false; established = true; log = λ _. []; queue = [] }

abbrev pub here : SocketAddr
here = record { ip = v4 (127 ∷ 0 ∷ 0 ∷ 1 ∷ []); port = 4433 }

abbrev link_write : Link → ℕ → List ℕ → Link
link_write c s buf = record c {
  log = λ j. if nat_beq s j then c.log j ++ take (min 4 (length buf)) buf else c.log j;
}

-- Stream 0 has nothing to read.
abbrev link_read : ℕ → ℕ → Result (List ℕ × Bool)
link_read s n =
    if nat_beq s 0 then failure Error.done else success ((if nat_beq n 0 then [] else s ∷ []), true)

abbrev link_recv : Link → List ℕ → Result ℕ × Link
link_recv c [] = (failure Error.invalid_packet, c)
link_recv c (b ∷ packet) = (success (length packet + 1), record c { established = true })

abbrev link_send : Link → List Datagram → Result Datagram × Link
link_send c [] = (failure Error.done, c)
link_send c (d ∷ ds) = (success d, record c { queue = ds })

abbrev pub library : Quiche Link
library = record {
  is_closed = λ c. c.closed;
  is_established = λ c. c.established;
  is_in_early_data = λ c. false;
  source_id = λ c. c.id;
  timeout = λ c. none;
  on_timeout = λ c. c;
  readable = λ c. 0 ∷ 4 ∷ [];
  writable = λ c. 4 ∷ [];
  stream_recv = λ c s n. (link_read s n, c);
  stream_send = λ c s buf fin. (success (min 4 (length buf)), link_write c s buf);
  close = λ c app code reason. (success tt, record c { closed = true });
  recv = λ c packet from. link_recv c packet;
  send = λ c. link_send c c.queue;
}

abbrev pub sent : Link → ℕ → List ℕ
sent c = c.log

pub sends : SendLaws library sent
sends = record {
  taken_le = λ c id buf fin k h. ground arith;
  sent_success = λ c id buf fin k h. ground (arith, nat_beq_iff id id);
  sent_failure = λ c id buf fin e h. absurd (ground arith);
  sent_other = λ c id j buf fin h. ground (arith, nat_beq_iff id j);
}

recv_id : (c : Link) (packet : List ℕ) → (link_recv c packet).1.id ≡ c.id
recv_id c [] = refl
recv_id c (b ∷ packet) = refl

send_id : (c : Link) (ds : List Datagram) → (link_send c ds).1.id ≡ c.id
send_id c [] = refl
send_id c (d ∷ ds) = refl

pub keeps_ids : IdLaws library
keeps_ids = record {
  recv_id = λ c packet from. recv_id c packet;
  send_id = λ c. send_id c c.queue;
  stream_recv_id = λ c id n. refl;
  stream_send_id = λ c id buf fin. refl;
  close_id = λ c app code reason. refl;
  on_timeout_id = λ c. refl;
}

pub reads_fit :
    (c : Link) (s n : ℕ) (bytes : List ℕ) (fin : Bool)
    → (library.stream_recv c s n).0 ≡ success (bytes, fin)
    → length bytes ≤ n
reads_fit c s n bytes fin h = ground arith

pub writes_live :
    (c : Link) (id : ℕ) (buf : List ℕ) (e : Error)
    → (library.stream_send c id buf true).0 ≢ failure e
writes_live c id buf e h = ground arith

abbrev pub pending : Link → ℕ
pending c = length c.queue

queue_shrinks :
    (c : Link) (ds : List Datagram) (d : Datagram)
    → (link_send c ds).0 ≡ success d
    → length (link_send c ds).1.queue < length ds
queue_shrinks c [] d h = absurd (ground arith)
queue_shrinks c (x ∷ ds) d h = omega arith

pub sends_shrink :
    (c : Link) (d : Datagram)
    → (library.send c).0 ≡ success d
    → pending (library.send c).1 < pending c
sends_shrink c d h = queue_shrinks c c.queue d h

-- The packet is its own token.
abbrev pub header : List ℕ → Header
header packet = record {
  ty = initial;
  version = 1;
  dcid = 1 ∷ 2 ∷ [];
  scid = 3 ∷ [];
  token = some packet;
}

abbrev pub surroundings : Bool → Env Link
surroundings logs_errors = record {
  max_conn_id_len = 2;
  from_slice = λ packet. success (header packet);
  sign = λ id. 8 ∷ 9 ∷ 10 ∷ [];
  version_is_supported = λ v. nat_beq v 1;
  negotiate_version = λ scid dcid. success [];
  retry = λ scid dcid new token v. success token;
  accept = λ scid odcid from. success (record link { id = scid });
  logs_errors = logs_errors;
  send_to = λ outbox d. none;
}

pub accepts_id :
    (logs_errors : Bool) (scid odcid : List ℕ) (from : SocketAddr) (c : Link)
    → (surroundings logs_errors).accept scid odcid from ≡ success c
    → library.source_id c ≡ scid
accepts_id logs_errors scid odcid from c h = ground arith

abbrev pub no_clients : Server Link
no_clients = record {
  clients = [];
  client_status = [];
  conn = λ _. link;
  next_conn = 0;
  outbox = [];
}

abbrev pub system : Os Link
system = record {
  poll_new = true;
  parse_addr = λ ip port. some here;
  udp_bind = λ addr. true;
  register = true;
  waker_new = true;
  random_fill = true;
  logs_info = true;
  local_addr = true;
  quiche_connect = λ addr. some (record link { queue = (7 ∷ [], here) ∷ [] });
  send_errors = [];
}

abbrev pub value_or {ℓ} : {A : Type ℓ} → A → Run A → A
value_or b (ok a) = a
value_or b err = b
value_or b panicked = b

-- The same library with streams that have been stopped.
abbrev pub broken_library : Quiche Link
broken_library = record library {
  stream_send = λ c s buf fin. (failure (Error.stream_stopped 0), c);
}

pub broken_sends : SendLaws broken_library sent
broken_sends = record {
  taken_le = λ c id buf fin k h. absurd (ground arith);
  sent_success = λ c id buf fin k h. absurd (ground arith);
  sent_failure = λ c id buf fin e h. refl;
  sent_other = λ c id j buf fin h. refl;
}
