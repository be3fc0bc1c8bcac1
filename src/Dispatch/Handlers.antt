-- ===== src/Dispatch/Handlers.antt =====
-- The handlers of src/commands.c for saving, replication, publish and subscribe, and EXEC, with
-- `tx_execute_commands` of src/transaction.c.
use crimson_cache.Base.{
  Option, ℕ, ◌+◌, ◌-◌, Bool, true, false, not, ◌&&◌, ◌||◌, List, [], ◌∷◌, ◌++◌, none, some, ltb,
  leb, ◌==◌, if◌then◌else◌, length, get_or, take, map,
}
use crimson_cache.CString.{Bytes, codes, strcasecmp_eq}
use crimson_cache.Number.{ℤ, pos, negsuc, negate, atoi, print, print_nat, snprintf}
use crimson_cache.Reply.{crlf, reply_string, reply_error, reply_integer}
use crimson_cache.PubSub.{
  Output, pubsub_subscribe_client, pubsub_unsubscribe_client, pubsub_publish_message,
}
use crimson_cache.Transaction.{Client, tx_cleanup}
use crimson_cache.Server.{Slots, get_client_by_socket, put_client}
use crimson_cache.Replication.{Replica, ReplicationInfo, ReplicaState, state_connected}
use crimson_cache.Replication.Roles.{
  replication_set_primary, replication_unset_primary, count_replicas,
}
use crimson_cache.Replication.Sync.{add_replica}
use crimson_cache.Persistence.Save.{save_rdb_to_file}
use crimson_cache.Commands.Keyspace.{cmd_ok, cmd_err}
use crimson_cache.Dispatch.{Server, World, Worlds, below, Ran, Executor, say, done, failed}

unfoldable pub save_command : World → ℕ → Server → Ran
save_command w sock s =
    let (saved, dump) = save_rdb_to_file w.files w.save_now s.db s.dump in
    let s' = record s { dump = dump } in
    if saved
    then done sock (reply_string (codes "OK")) s'
    else failed sock (reply_error (codes "ERR failed to save db")) s'

-- `background_save`: the child has a copy of the database, and saves it when it runs.
unfoldable pub background_save : Bool → Server → Bool × Server
background_save forks s =
    if forks then (true, record s { children = s.db ∷ s.children }) else (false, s)

unfoldable pub bgsave_command : World → ℕ → Server → Ran
bgsave_command w sock s =
    let (started, s') = background_save w.forks s in
    if started
    then done sock (reply_string (codes "Background saving started")) s'
    else failed sock (reply_error (codes "ERR failed to start background save")) s'

abbrev bad_port : ℤ → Bool
bad_port (pos n) = n == 0 || ltb 65535 n
bad_port (negsuc n) = true

unfoldable pub replicaof_command : World → ℕ → List Bytes → Server → Ran
replicaof_command w sock argv s =
    let host = get_or argv 1 [] in
    if strcasecmp_eq host (codes "NO") && strcasecmp_eq (get_or argv 2 []) (codes "ONE")
    then done sock (reply_string (codes "OK"))
        (record s { repl = replication_unset_primary s.repl })
    else if bad_port (atoi (get_or argv 2 []))
    then failed sock (reply_error (codes "ERR invalid port")) s
    else (let (connected, repl, sent) =
          replication_set_primary w.connect s.port host (atoi (get_or argv 2 [])) s.repl in
        let s' = record s { repl = repl } in
        record {
          result = if connected then cmd_ok else cmd_err;
          server = s';
          sent =
              sent
              ++ say sock (
                  if connected
                  then reply_string (codes "OK")
                  else reply_error (codes "ERR couldn't connect to primary"));
        })

abbrev pub difference : ℕ → ℕ → ℤ
difference a b = if leb b a then pos (a - b) else negate (b - a)

-- The text of an address; through NULL, where C leaves the read undefined, none.
abbrev ip_text : Option Bytes → Bytes
ip_text none = []
ip_text (some ip) = ip

-- One replica in the answer of ROLE.
unfoldable pub role_entry : ℕ → Replica → Bytes
role_entry now r =
    codes "*3"
    ++ crlf
    ++ b'$' ∷ print_nat (length (ip_text r.ip))
    ++ crlf
    ++ ip_text r.ip
    ++ crlf
    ++ b':' ∷ print r.port
    ++ crlf
    ++ b':' ∷ print (difference now r.last_ack_time)
    ++ crlf

-- The loop over the replicas, with `written` and what stands in the buffer of 1024 bytes.
unfoldable pub role_entries : (ℕ → ℕ) → List Replica → ℕ → Bytes → Bytes
role_entries now [] written response = response
role_entries now (r ∷ rs) written response =
    let text = role_entry (now r.fd) r in
    let rest =
      role_entries now rs (written + length text) (response ++ take (1024 - written - 1) text) in
    if ltb written 924 then rest else response

abbrev link_name : ReplicaState → Bytes
link_name state_connected = codes "connected"
link_name _ = codes "connecting"

unfoldable pub role_reply : (ℕ → ℕ) → ReplicationInfo → Bytes
role_reply now repl =
    if repl.is_primary
    then (let header =
          codes "*3"
          ++ crlf
          ++ codes "$6"
          ++ crlf
          ++ codes "master"
          ++ crlf
          ++ b':' ∷ print_nat repl.repl_offset
          ++ crlf
          ++ b'*' ∷ print_nat (count_replicas repl)
          ++ crlf in
        role_entries now repl.replicas (length header) (snprintf 1024 header))
    else snprintf 1024 (
        codes "*5"
        ++ crlf
        ++ codes "$5"
        ++ crlf
        ++ codes "slave"
        ++ crlf
        ++ b'$' ∷ print_nat (length repl.primary_host)
        ++ crlf
        ++ repl.primary_host
        ++ crlf
        ++ b':' ∷ print repl.primary_port
        ++ crlf
        ++ b'$' ∷ print_nat (length (link_name repl.state))
        ++ crlf
        ++ link_name repl.state
        ++ crlf
        ++ b':' ∷ print_nat repl.repl_offset
        ++ crlf)

unfoldable pub role_command : World → ℕ → Server → Ran
role_command w sock s = done sock (role_reply w.role_now s.repl) s

unfoldable pub replconf_command : World → ℕ → List Bytes → Server → Ran
replconf_command w sock argv s =
    if leb 3 (length argv) && strcasecmp_eq (get_or argv 1 []) (codes "listening-port")
    then (let (repl, sent) =
          add_replica w.replica sock w.peer_ip (atoi (get_or argv 2 [])) s.db s.repl in
        record {
          result = cmd_ok;
          server = record s { repl = repl };
          sent = map (λ bs. (sock, bs)) sent ++ say sock (reply_string (codes "OK"));
        })
    else done sock (reply_string (codes "OK")) s

unfoldable pub subscribe_command : World → ℕ → List Bytes → Server → Ran
subscribe_command w sock argv s = elim (get_client_by_socket sock s.clients) [
  | none ↦ failed sock (reply_error (codes "err client not found for subscribe")) s
  | some client ↦
      (let r = pubsub_subscribe_client w.subs client.socket argv s.channels in
        record { result = cmd_ok; server = record s { channels = r.channels }; sent = r.written })
]

unfoldable pub unsubscribe_command : ℕ → List Bytes → Server → Ran
unsubscribe_command sock argv s = elim (get_client_by_socket sock s.clients) [
  | none ↦ failed sock (reply_error (codes "err client not found for unsubscribe")) s
  | some client ↦
      (let r = pubsub_unsubscribe_client client.socket argv s.channels in
        record { result = cmd_ok; server = record s { channels = r.channels }; sent = r.written })
]

unfoldable pub publish_command : ℕ → List Bytes → Server → Ran
publish_command sock argv s =
    if not (length argv == 3)
    then failed sock (reply_error (codes "err wrong number of arguments for 'publish' command")) s
    else (let (sent, receivers) =
          pubsub_publish_message (get_or argv 1 []) (get_or argv 2 []) s.channels in
        record {
          result = cmd_ok;
          server = s;
          sent = sent ++ say sock (reply_integer (pos receivers));
        })

-- Whether every copy of the queued commands is granted, the copy at k where k stand behind it.
unfoldable pub all_copied : (ℕ → Bool) → List Bytes → Bool
all_copied granted [] = true
all_copied granted (cmd ∷ cmds) = granted (length cmds) && all_copied granted cmds

-- The loop of `tx_execute_commands`.
unfoldable pub run_each : Executor → Worlds → ℕ → List Bytes → Server → Output × Server
run_each run w sock [] s = ([], s)
run_each run w sock (cmd ∷ cmds) s =
    let r = run (below (length cmds) w) sock cmd s in
    let (sent, s') = run_each run w sock cmds r.server in (r.sent ++ sent, s')

abbrev cleaned : Client → Server → Server
cleaned client s = record s { clients = put_client (tx_cleanup client) s.clients }

unfoldable pub tx_execute_commands : Executor → Worlds → Client → Server → Output × Server
tx_execute_commands run w client s =
    let sock = client.socket in
    if client.transaction_errors
    then (
      say sock (reply_error (codes "EXECABORT Transaction discarded because of previous errors")),
      cleaned client s,
    )
    else if not ((w []).array_granted && all_copied (w []).copies_granted client.queued_commands)
    then (
      say sock (reply_error (codes "ERR out of memory during transaction execution")),
      cleaned client s,
    )
    else (let (sent, s') = run_each run w sock client.queued_commands (cleaned client s) in
        (
          say sock (snprintf 32 (b'*' ∷ print_nat (length client.queued_commands) ++ crlf)) ++ sent,
          s',
        ))

-- A transaction that is still open is closed.
unfoldable pub close_block : ℕ → Slots → Slots
close_block sock slots = elim (get_client_by_socket sock slots) [
  | none ↦ slots
  | some client ↦
      if client.in_transaction
      then put_client (record client { in_transaction = false }) slots
      else slots
]

unfoldable pub exec_command : Executor → Worlds → ℕ → Server → Ran
exec_command run w sock s = elim (get_client_by_socket sock s.clients) [
  | none ↦ failed sock (reply_error (codes "ERR client not found")) s
  | some client ↦
      if not client.in_transaction
      then failed sock (reply_error (codes "ERR EXEC without MULTI")) s
      else (let (sent, s') = tx_execute_commands run w client s in
          record {
            result = cmd_ok;
            server = record s' { clients = close_block sock s'.clients };
            sent = sent;
          })
]
