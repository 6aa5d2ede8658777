-- ===== src/Xmpp/State.antt =====
-- bumper/xmppserver.py: the states of a connection, which are ordered.
use bumper.Prelude.{ℕ}

abbrev pub idle : ℕ
idle = 0

abbrev pub connect : ℕ
connect = 1

abbrev pub init : ℕ
init = 2

abbrev pub bind : ℕ
bind = 3

abbrev pub ready : ℕ
ready = 4

abbrev pub disconnect : ℕ
disconnect = 5
