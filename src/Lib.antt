-- ===== src/Lib.antt =====
-- Bumper: a stand-in for the vendor's cloud that vacuum robots ("bots") and apps ("clients")
-- talk to over XMPP, MQTT and HTTP. All parts share one TinyDB file (bumper/db.py) of users,
-- clients, bots, tokens and oauth entries.
--
-- Prelude.antt, Prelude/: shared names; Prelude/Text.antt has Python's operations on texts,
--   Prelude/Exec.antt code that changes a state and may raise (what was written before an exception
--   stays written).
-- Tiny.antt, Tiny/: TinyDB, a third-party package, as a parameter with its documented laws;
--   Tiny/Slots.antt is a concrete instance, on which the tests run. Tiny/Keyed.antt has what follows
--   for a table whose documents are told apart by a key.
-- Db.antt, Db/: bumper/db.py and the documents of bumper/models.py, a file for each table, with
--   the theorems in child modules: what a lookup finds after each operation (Views), at most one
--   document for each key (Unique, Invariant), the table as a finite map (Refines), the resets at
--   the start (Reset), the expiry of tokens and of oauth entries (Sweep, Stopped) and the oauth entries of
--   repeated calls (Reuse). Each definition has the name of its function.
-- Xmpp.antt, Xmpp/: bumper/xmppserver.py. A connection (XMPPAsyncClient) is a number, the server a
--   record of the connections, the list XMPPServer.clients, the database and the waiting tasks; each
--   handler is a function on it, with the function's name less its first underscore. Conn.antt has
--   the callbacks of the protocol, Auth.antt login, bind and session, Forward.antt commands, pings
--   and results, Stream.antt the stream's start, presences and parse_data. Follows/ shows what any
--   input may change, Sending.antt what a loop over the connections sends, Delivery.antt whom a
--   forwarded stanza reaches, Session.antt the login, Leaving.antt the disconnection.
-- Mqtt.antt, Mqtt/: bumper/mqtt/server.py, the class BumperMQTTServerPlugin. Sessions.antt has
--   authenticate, the password file and the connection's flags, Messages.antt the other callbacks of
--   the broker, Access.antt whom authenticate lets in, Flags.antt the flags of a bot. Vendor.antt,
--   Vendor/: bumper/mqtt/proxy.py, the messages of the vendor's server, with Relay.antt on a request and
--   its answers, and Confined.antt on all sequences of events. Helper.antt, Helper/:
--   bumper/mqtt/helper_bot.py, whose send_command is cut in two where it waits; Waiting.antt has what
--   stays meanwhile, Answers.antt what it answers.
-- Json.antt, Json/: JSON values, which the helper bot and the plugins read and write.
-- Web.antt, Web/: bumper/web/auth_util.py. Auth.antt has the handlers, whose exceptions stand for the
--   answer of an internal server error, Entry.antt a login, with Members.antt on what it writes to the
--   user, and Login.antt an auth code. Server.antt, Server/: bumper/web/server.py, the web server's own
--   routes. Plugins.antt, Plugins/: bumper/web/plugins,
--   with Users.antt (api/users.py), Devmanager.antt (api/iot.py and api/dim.py), Lg.antt (api/lg.py),
--   Appsvr.antt (api/appsvr.py), Product.antt (api/pim/product.py), Account.antt (v1/private/user.py)
--   and Common.antt (common.py, message.py and user_setting.py beside it). A handler is a function of
--   the parts of the request that it reads and of the database; Lg.antt cuts it in two where it waits
--   for the helper bot.
-- Start.antt, Start/: bumper/__init__.py, the order of the services at the start and the shutdown, and
--   the maintenance.
--
-- The handlers of all three servers call the database's operations (bot_add, client_add,
-- check_authcode, user_add_token, the flags), as in the source. XML parsing and printing, base64,
-- uuid4 and lower-casing are fields of the record Env; password hashes, the proxies' connections, the
-- clock and uuid4 are fields of MqttEnv and WebEnv; json.dumps, json.loads and str of HelperEnv and
-- ServerEnv; the file of products and the XML parser of Lg.antt are arguments. A theorem assumes of
-- them at most their value at the input at hand. All recursion is structural (over lists, texts and XML
-- trees), so no fuel is needed. Instants are natural numbers of microseconds; the dates of oauth entries
-- are UTC and are compared with local time, as in the source (LocalClock). The use_auth of auth_util.py
-- is the constant that it imports, False; the one that the other two servers read at each call is a
-- field. The address that api/users.py announces is the one it imported (imported_ip).
--
-- Not modelled: MQTTServer, the connections of the proxy client and of the helper bot (bumper/mqtt), the
-- home page, the proxy handler and the routes of the web server, the fixed configuration of appsvr.py
-- and the plugins not named above (bumper/web), the command line, log lines, sockets and TLS itself, a
-- session without a user name, payloads that are not UTF-8, the quality of service of a message, the
-- times in the answers of auth_util.py, and the branches of _handle_connect with an element, which
-- nothing calls.
pub mod Db
pub mod Json
pub mod Mqtt
pub mod Prelude
pub mod Start
pub mod Tiny
pub mod Web
pub mod Xmpp
