-- ===== src/Xmpp/Tests.antt =====
-- The theorems about the XMPP server at concrete inputs, over the tables of `Tiny/Slots.antt`.
use bumper.Prelude.{
  ◌≤◌, ◌≡◌, refl, true, false, ◌==◌, none, some, [], ◌∷◌, ◌++◌, if◌then◌else◌, nat_eq,
}
use bumper.Prelude.Text.{split, has_sub}
use bumper.Tiny.Slots.{slots, rows_from, next_from, merge_slots, slot_insert, slot_upsert}
use bumper.Tiny.Rows.{any_match, first, matching, merge_matching}
use bumper.Db.{empty_db}
use bumper.Db.Documents.{bot_asdict}
use bumper.Db.Bots
use bumper.Db.Bots.Views.{bot_view}
use bumper.Xmpp.{Env, bot, controller, Client, Server}
use bumper.Xmpp.State
use bumper.Xmpp.Xml.{Element, element, nil, cons, root, tag, with_from, lookup}
use bumper.Xmpp.Conn
use bumper.Xmpp.Conn.{new_client}
use bumper.Xmpp.Auth
use bumper.Xmpp.Forward
use bumper.Xmpp.Stream
use bumper.Xmpp.Follows.{unsent}
use bumper.Xmpp.Follows.Stream.{parse_data_grows, parse_data_others}
use bumper.Xmpp.Delivery.{
  takes_ctl, handle_ctl_delivers, handle_ctl_confined, forward_result_broadcast,
}
use bumper.Xmpp.Sending.{occurrences, times, sent_more}
use bumper.Xmpp.Session.{
  handle_iq_unauthenticated, handle_sasl_auth_lem, is_accepted, logged_in, accepted_db,
}
use bumper.Xmpp.Leaving.{handle_presence_unavailable}

-- A command for the bot "sn-1".
abbrev query : Element
query = element "query" [] none nil

abbrev command : Element
command = element "iq" (("to", "sn-1@cls.ecorobot.net/atom") ∷ []) none (cons query nil)

abbrev report : Element
report = element "iq" (("to", "de.ecorobot.net") ∷ []) none (cons query nil)

abbrev leave : Element
leave = element "presence" (("type", "unavailable") ∷ []) none nil

abbrev session : Element
session = element "iq" (("id", "7") ∷ []) none (cons (element "{urn}session" [] none nil) nil)

abbrev auth : Element
auth = element "{urn:ietf:params:xml:ns:xmpp-sasl}auth" [] (some "x\0user\0/res/code") nil

abbrev env : Env
env = record {
  use_auth = true;
  b64decode = λ s. some s;
  tostring = λ e. tag e;
  fromstring = λ s. root (element "root" [] none (cons command (cons leave nil)));
  replace_declaration = λ new s. s;
  lower = λ s. s;
  uuid4 = λ n. "u";
}

abbrev app : Client
app = record new_client {
  kind = controller;
  state = State.ready;
  uid = "user";
  bumper_jid = "user@ecouser.net";
}

abbrev robot : Client
robot = record new_client {
  kind = bot;
  state = State.ready;
  uid = "sn-1";
  bumper_jid = "sn-1@cls.ecorobot.net/atom";
}

-- The app is 0, the bot 1; 2 has just connected.
abbrev server : Server slots
server = record {
  conn = λ i.
      if nat_eq i 0
      then app
      else if nat_eq i 1
      then robot
      else record new_client { state = State.connect };
  clients = 0 ∷ 1 ∷ 2 ∷ [];
  db = Bots.bot_add "sn-1" "sn-1" "cls" "atom" "eco-legacy" (empty_db slots);
  tasks = [];
  drawn = 0;
}

parse_data_grows_example :
    (server.conn 0).state ≤ ((Stream.parse_data env 0 "<iq/>" server).conn 0).state
parse_data_grows_example = parse_data_grows env 0 0 "<iq/>" server

parse_data_others_example :
    (unsent ((Stream.parse_data env 0 "<iq/>" server).conn 1) ≡ unsent (server.conn 1))
    × ((Stream.parse_data env 0 "<iq/>" server).clients ≡ server.clients)
parse_data_others_example = parse_data_others env 0 1 "<iq/>" server refl

handle_ctl_delivers_example :
    (Forward.handle_ctl env 0 command "<iq/>" server).conn 1
    ≡ sent_more
        (if takes_ctl env app.bumper_jid "sn-1@cls.ecorobot.net/atom" robot
          then times
              (occurrences 1 server.clients)
              (Forward.clean_ctl (env.tostring (with_from app.bumper_jid command)))
          else [])
        robot
unfolding has_sub lookup
handle_ctl_delivers_example =
    handle_ctl_delivers env 0 1 command query "<iq/>" "sn-1@cls.ecorobot.net/atom" server refl refl
      refl refl refl

handle_ctl_confined_example :
    (Forward.handle_ctl env 0 command "<iq/>" server).conn 2 ≡ server.conn 2
handle_ctl_confined_example = handle_ctl_confined env 0 2 command "<iq/>" server refl (λ to h. refl)

forward_result_broadcast_example : (Forward.forward_result env 1 report server).conn 0 ≡ (
    let message = Forward.clean_ctl (env.tostring (with_from robot.bumper_jid report)) in
    let once = times (occurrences 0 server.clients) message in
    sent_more (once ++ (if Forward.is_peer robot.bumper_jid app then once else [])) app)
unfolding lookup
forward_result_broadcast_example = forward_result_broadcast env 1 0 report server refl refl

handle_iq_unauthenticated_example :
    (((Stream.handle_iq env 3 session "<iq/>" (Conn.connection_made 3 server)).conn 3).state
      ≡ State.ready)
    × ((Stream.handle_iq env 3 session "<iq/>" (Conn.connection_made 3 server)).db ≡ server.db)
unfolding Stream.strip_uri
handle_iq_unauthenticated_example = handle_iq_unauthenticated env 3 session "<iq/>" server refl

handle_sasl_auth_lem_example :
    (let t = Auth.handle_sasl_auth env 2 auth server in
      let c = record new_client { state = State.connect; uid = "user"; clientresource = "res" } in
      let accepted = is_accepted env c "code" server.db in
      (t.conn 2 ≡ logged_in accepted c)
      × (t.db ≡ (if accepted then accepted_db c server.db else server.db)))
unfolding split
handle_sasl_auth_lem_example =
    handle_sasl_auth_lem env 2 auth "x\0user\0/res/code" "x\0user\0/res/code" "x\0user\0" "user"
      server refl refl refl refl refl

handle_presence_unavailable_example :
    (((Stream.handle_presence 1 leave server).conn 1).state ≡ State.disconnect)
    × (((Stream.handle_presence 1 leave server).conn 1).closed ≡ true)
    × (bot_view "sn-2" (Stream.handle_presence 1 leave server).db ≡ (
        if "sn-1" == "sn-2"
        then some (record (bot_asdict "sn-1" "sn-1" "cls" "atom" "eco-legacy") {
          xmpp_connection = some false;
        })
        else bot_view "sn-2" server.db))
unfolding lookup rows_from next_from slot_insert slot_upsert first matching any_match merge_matching
    merge_slots Bots.bot_add Bots.bot_get Bots.is_acceptable bot_view
handle_presence_unavailable_example =
    handle_presence_unavailable 1 leave "sn-2" (bot_asdict "sn-1" "sn-1" "cls" "atom" "eco-legacy")
      server refl refl refl refl
