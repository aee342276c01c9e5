-- ===== src/Cli/EndToEnd.antt =====
-- cmd/tumbleweed-cli/main.go with the client of pkg/client/client.go, and behind it the server and the
-- broker of one connection.
use tumbleweed.Base.{
  err, Result, ℕ, ◌+◌, ◌^◌, ◌≤◌, ◌<◌, ◌≡◌, refl, ap, ◌∙◌, ◌⊎◌, inl, inr, some, List, [], ◌∷◌, ◌++◌,
  length, true, All, Error, ok, io, broker_error,
}
use tumbleweed.Protocol.Frame.{type_req_produce}
use tumbleweed.Protocol.ProduceRequest.Laws.{produce_request_layout, ProduceRequestFits}
use tumbleweed.Wal.Encoding.Layout.{Entry}
use tumbleweed.Wal.Log.{Logs}
use tumbleweed.Broker.Names.{Name, find, same_name}
use tumbleweed.Broker.Topics.{Topic, BrokerState, World}
use tumbleweed.Broker.Produce.Laws.{Writable, IsQuiet, entry_of}
use tumbleweed.Server.{err_code_internal_error}
use tumbleweed.Client.{Client}
use tumbleweed.Client
use tumbleweed.Client.Served.{answers, Sendable}
use tumbleweed.Client.States.{after}
use tumbleweed.Client.EndToEnd.{operations, called, produce-end_to_end}
use tumbleweed.Client.Address.{connect}
use tumbleweed.Cli.{is_addr}
use tumbleweed.Cli.Laws.{IsOther}
use tumbleweed.Cli.Flags.{shape, no_flag, parse_flags, parse_flags-no_flag}
use tumbleweed.Cli.Commands.{
  Run, Calls, Environment, failed, produced, ended, string_flag, key_flag, after_flags,
  produce_message, produce_word, connected, main,
}
use tumbleweed.Cli.Address.{main-addr}

-- the calls of a client on its connection
abbrev pub client_calls : (List ℕ → List ℕ) → Client → Calls Client
client_calls peer c = record {
  ping = Client.ping peer c;
  create_topic = λ topic. Client.create_topic peer c topic;
  produce = λ topic key value. Client.produce peer c topic key value;
  fetch = λ req. Client.fetch peer c req;
  ack = λ topic group offset. Client.ack peer c topic group offset;
  nack = λ topic group offset. Client.nack peer c topic group offset;
  list_topics = Client.list_topics peer c;
}

-- "-key"
abbrev pub dash_key : Name
dash_key = 45 ∷ key_flag

run_produce-key :
    {C : Type 0} (env : Environment C) (calls : Calls C) (key topic msg : Name) (more : List Name)
    → shape topic ≡ no_flag
    → connected env produce_word (dash_key ∷ key ∷ topic ∷ msg ∷ more) (ok calls)
      ≡ ended produced (calls.produce topic key msg)
unfolding parse_flags shape same_name
run_produce-key env calls key topic msg more no_dash =
    ap (after_flags (produce_message calls))
      (parse_flags-no_flag (string_flag key_flag) key topic (msg ∷ more) no_dash)

ended_client : (p : Client × Result ℕ) → (ended produced p).0 ≡ some p.0
ended_client (c, err e) = refl
ended_client (c, ok n) = refl

ended_ok : (p : Client × Result ℕ) (n : ℕ) → p.1 ≡ ok n → (ended produced p).1 ≡ produced n
ended_ok (c, err e) n h = absurd (cc)
ended_ok (c, ok m) n h = let same : m ≡ n = cc in ap produced same

ended_err : (p : Client × Result ℕ) (e : Error) → p.1 ≡ err e → (ended produced p).1 ≡ failed e
ended_err (c, err x) e h = let same : x ≡ e = cc in ap failed same
ended_err (c, ok n) e h = absurd (cc)

module _ (w : World) (b : BrokerState) (name : Name) (key value : List ℕ) (t : Topic)
    (es : List Entry) (h : Writable w b name t es (entry_of w key value))
    (quiet : IsQuiet t.pending_fetches) (text : Error → List ℕ) (unknown_text : List ℕ)
    (fuel room : ℕ) (c : Client) (env : Environment Client) (flag addr : Name)
    (front back more : List Name) where
  -- The command `produce -key <key> <topic> <message>`, with the address of the broker anywhere among
  -- its arguments, of which no other looks like an address flag and the topic not like a flag. At that
  -- address is a server, on a new connection, and a broker with the topic, whose log is in order and
  -- open, with a positive limit of a segment and room for the message, with a checksum of 32 bits, where
  -- no fetch waits and whichever system calls fail; the lengths fit their fields, and the connections
  -- take the request and the response. Then the command makes a call, and handleConnection leaves the
  -- broker, after what the client of that call has sent, in a state with the topic. The command prints
  -- the next offset, and the topic's log there holds the old messages and then the new one; or it fails
  -- with the broker's I/O error, and the log there holds the old messages, or those and the new one.
  pub main-produces :
      is_addr flag ≡ true
      → All IsOther front
      → All IsOther back
      → front ++ back ≡ produce_word ∷ dash_key ∷ key ∷ name ∷ value ∷ more
      → shape name ≡ no_flag
      → connect env.dial addr
        ≡ ok (client_calls (answers text (operations w) unknown_text fuel room b) c)
      → ProduceRequestFits (record { topic = name; key = key; value = value })
      → Sendable c type_req_produce
          (produce_request_layout (record { topic = name; key = key; value = value }) [])
      → t.wal.next_offset < 2 ^ 64
      → 17 ≤ room
      → length (text io) < 2 ^ 16
      → 13 + length (text io) ≤ room
      → (d : Client) × (t' : Topic) × ((main env (front ++ (flag ∷ addr ∷ back))).0 ≡ some d)
        × (find name (after text (operations w) unknown_text fuel room b d.out.sent).topics
            ≡ some t')
        × ((((main env (front ++ (flag ∷ addr ∷ back))).1 ≡ produced t.wal.next_offset)
              × Logs w.crc t'.wal 0 (es ++ (entry_of w key value ∷ [])))
            ⊎ (((main env (front ++ (flag ∷ addr ∷ back))).1
                  ≡ failed (broker_error err_code_internal_error (text io)))
                × (Logs w.crc t'.wal 0 es
                    ⊎ Logs w.crc t'.wal 0 (es ++ (entry_of w key value ∷ [])))))
  unfolding shape
  main-produces e f k whole no_dash there fits sendable wide space short long =
      let calls = client_calls (answers text (operations w) unknown_text fuel room b) c in
      let args = dash_key ∷ key ∷ name ∷ value ∷ more in
      let result = called w b name key value t es h quiet text unknown_text fuel room c in
      let same : main env (front ++ (flag ∷ addr ∷ back)) ≡ ended produced result =
        main-addr env flag addr produce_word front back args e f k whole refl
        ∙ ap (connected env produce_word args) there
        ∙ run_produce-key env calls key name value more no_dash in
      let (t', found, ends) =
        produce-end_to_end w b name key value t es h quiet text unknown_text fuel room c fits
          sendable wide space short long in
      (
        result.0,
        t',
        ap (λ (r : Run Client). r.0) same ∙ ended_client result,
        found,
        elim ends [
          | inl (r, logs) ↦
              inl (ap (λ (r : Run Client). r.1) same ∙ ended_ok result t.wal.next_offset r, logs)
          | inr (r, logs) ↦ inr (
            ap (λ (r : Run Client). r.1) same
                ∙ ended_err result (broker_error err_code_internal_error (text io)) r,
            logs,
          )
        ],
      )
