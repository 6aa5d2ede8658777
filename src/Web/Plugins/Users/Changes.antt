-- ===== src/Web/Plugins/Users/Changes.antt =====
-- What the requests of bumper/web/plugins/api/users.py do to the database.
use bumper.Prelude.{
  ◌≡◌, refl, sym, ◌∙◌, subst, String, ◌==◌, true, ◌||◌, Option, none, some, List, [], ◌∷◌, ◌++◌,
  if◌then◌else◌, inl, inr, Bool-cases, Option-cases, eq_iff,
}
use bumper.Prelude.Exec.{Result, ok, err, continue}
use bumper.Tiny.{TinyDb}
use bumper.Db.{Db}
use bumper.Db.Bots.Unique.{BotOp, set_nick, remove, run_op, run_ops}
use bumper.Db.Tokens.{check_authcode, login_by_it_token}
use bumper.Web.Plugins.{Posted}
use bumper.Web.Plugins.Users.{
  login_user, login_found, login_it_token, set_device_nick, delete_device, users_todo, or_fail,
  handle_usersapi,
}
use bumper.Web.Server.{ServerEnv, Reply}
use bumper.Xmpp.Xml.{lookup}

-- The operations on the bots that a request asks for: a nickname for a did, or the removal of a did, if
-- all that is needed is given.
unfoldable pub nick_edits : List (String × String) → List BotOp
nick_edits post = elim (lookup "did" post) [
  | none ↦ []
  | some did ↦ elim (lookup "nick" post) [ none ↦ [] | some nick ↦ set_nick did nick ∷ [] ]
]

unfoldable pub delete_edits : List (String × String) → List BotOp
delete_edits post = elim (lookup "did" post) [ none ↦ [] | some did ↦ remove did ∷ [] ]

unfoldable pub todo_edits : String → List (String × String) → List BotOp
unfolding nick_edits delete_edits
todo_edits todo post =
    if todo == "SetDeviceNick" || todo == "AddOneDevice"
    then nick_edits post
    else if todo == "DeleteOneDevice"
    then delete_edits post
    else []

unfoldable pub edits : Posted → List BotOp
unfolding todo_edits
edits request = if request.method == "GET" then [] else elim request.body [
  | none ↦ []
  | some post ↦ elim (lookup "todo" post) [ none ↦ [] | some todo ↦ todo_edits todo post ]
]

unfoldable pub all_edits : List Posted → List BotOp
unfolding edits
all_edits [] = []
all_edits (request ∷ rest) = edits request ++ all_edits rest

module _ {tiny : TinyDb} where
  unfoldable pub run_requests : ServerEnv → List Posted → Db tiny → Db tiny
  run_requests env [] db = db
  run_requests env (request ∷ rest) db = run_requests env rest (handle_usersapi env request db).1

  run_ops-append :
      (ops more : List BotOp) (db : Db tiny)
      → run_ops (ops ++ more) db ≡ run_ops more (run_ops ops db)
  unfolding run_ops
  run_ops-append [] more db = refl
  run_ops-append (op ∷ ops) more db = run_ops-append ops more (run_op op db)

  nick_lem :
      (post : List (String × String)) (db : Db tiny)
      → (set_device_nick post db).1 ≡ run_ops (nick_edits post) db
  unfolding set_device_nick nick_edits run_ops run_op
  nick_lem post db = elim (Option-cases (lookup "did" post)) [
    | inl h ↦ rw (h, set_device_nick, nick_edits) refl
    | inr (did, h) ↦ elim (Option-cases (lookup "nick" post)) [
      | inl h1 ↦ rw (h, set_device_nick, nick_edits) (rw (h1) refl)
      | inr (nick, h1) ↦ rw (h, set_device_nick, nick_edits) (rw (h1) refl)
    ]
  ]

  delete_lem :
      (post : List (String × String)) (db : Db tiny)
      → (delete_device post db).1 ≡ run_ops (delete_edits post) db
  unfolding delete_device delete_edits run_ops run_op
  delete_lem post db = elim (Option-cases (lookup "did" post)) [
    | inl h ↦ rw (h, delete_device, delete_edits) refl
    | inr (did, h) ↦ rw (h, delete_device, delete_edits) refl
  ]

  login_user_unchanged :
      (userid : String) (post : List (String × String)) (db : Db tiny)
      → (login_user userid post db).1 ≡ db
  unfolding login_user
  login_user_unchanged userid post db = elim (Option-cases (lookup "token" post)) [
    | inl h ↦ rw (h, login_user) refl
    | inr (token, h) ↦ elim (Bool-cases (check_authcode userid token db)) [
      | inr e ↦ rw (h, login_user) (rw (e) refl)
      | inl e ↦ elim (Option-cases (lookup "resource" post)) [
        | inl h1 ↦ rw (h, login_user) (rw (e) (rw (h1) refl))
        | inr (resource, h1) ↦ rw (h, login_user) (rw (e) (rw (h1) refl))
      ]
    ]
  ]

  login_known_unchanged :
      (post : List (String × String)) (found : Option (String × String)) (db : Db tiny)
      → (login_found post found db).1 ≡ db
  unfolding login_found
  login_known_unchanged post none db = refl
  login_known_unchanged post (some (token, userid)) db =
      elim (Option-cases (lookup "resource" post)) [
        | inl h ↦ rw (h, login_found) refl
        | inr (resource, h) ↦ rw (h, login_found) refl
      ]

  continued_unchanged :
      (post : List (String × String)) (r : Result (Option (String × String))) (db : Db tiny)
      → (continue (login_found post) (r, db)).1 ≡ db
  continued_unchanged post (ok found) db = login_known_unchanged post found db
  continued_unchanged post (err e) db = refl

  login_it_token_unchanged :
      (post : List (String × String)) (db : Db tiny) → (login_it_token post db).1 ≡ db
  unfolding login_it_token
  login_it_token_unchanged post db = elim (Option-cases (lookup "token" post)) [
    | inl h ↦ rw (h, login_it_token) refl
    | inr (code, h) ↦
        rw (h, login_it_token) (continued_unchanged post (login_by_it_token code db) db)
  ]

  -- `todo`s one by one; the ones before it in the chain are other texts.
  users_todo_lem :
      (env : ServerEnv) (todo : String) (post : List (String × String)) (db : Db tiny)
      → (users_todo env todo post db).1 ≡ run_ops (todo_edits todo post) db
  unfolding users_todo todo_edits run_ops
  users_todo_lem env todo post db = elim (Bool-cases (todo == "FindBest")) [
    | inl e ↦ at "FindBest" e (elim (Option-cases (lookup "service" post)) [
      | inl h ↦ rw (h) refl
      | inr (service, h) ↦ rw (h) refl
    ])
    | inr e1 ↦ elim (Bool-cases (todo == "loginByItToken")) [
      | inl e ↦ at "loginByItToken" e (elim (Option-cases (lookup "userId" post)) [
        | inl h ↦ rw (h) (login_it_token_unchanged post db)
        | inr (userid, h) ↦ rw (h) (login_user_unchanged userid post db)
      ])
      | inr e2 ↦ elim (Bool-cases (todo == "GetDeviceList")) [
        | inl e ↦ at "GetDeviceList" e refl
        | inr e3 ↦ elim (Bool-cases (todo == "SetDeviceNick")) [
          | inl e ↦ at "SetDeviceNick" e (nick_lem post db)
          | inr e4 ↦ elim (Bool-cases (todo == "AddOneDevice")) [
            | inl e ↦ at "AddOneDevice" e (nick_lem post db)
            | inr e5 ↦ elim (Bool-cases (todo == "DeleteOneDevice")) [
              | inl e ↦ at "DeleteOneDevice" e (delete_lem post db)
              | inr e6 ↦ rw (e1, e2, e3, e4, e5, e6) refl
            ]
          ]
        ]
      ]
    ]
  ]
    where
      at :
          (s : String)
          → (todo == s) ≡ true
          → (users_todo env s post db).1 ≡ run_ops (todo_edits s post) db
          → (users_todo env todo post db).1 ≡ run_ops (todo_edits todo post) db
      at s e h =
          subst (λ t. (users_todo env t post db).1 ≡ run_ops (todo_edits t post) db)
            (sym ((eq_iff todo s).0 e)) h

  or_fail_db : (r : Result Reply × Db tiny) → (or_fail r).1 ≡ r.1
  or_fail_db (ok reply, db) = refl
  or_fail_db (err e, db) = refl

  request_lem :
      (env : ServerEnv) (request : Posted) (db : Db tiny)
      → (handle_usersapi env request db).1 ≡ run_ops (edits request) db
  unfolding handle_usersapi edits run_ops
  request_lem env request db = elim (Bool-cases (request.method == "GET")) [
    | inl e ↦ rw (e, handle_usersapi, edits) refl
    | inr e ↦ elim (Option-cases request.body) [
      | inl h ↦ rw (e, handle_usersapi, edits) (rw (h) refl)
      | inr (post, h) ↦ elim (Option-cases (lookup "todo" post)) [
        | inl h1 ↦ rw (e, handle_usersapi, edits) (rw (h) (rw (h1) refl))
        | inr (todo, h1) ↦
            rw (e, handle_usersapi, edits)
              (rw (h) (
                rw (h1)
                  (or_fail_db (users_todo env todo post db) ∙ users_todo_lem env todo post db)))
      ]
    ]
  ]

  -- Any sequence of requests to users.do leaves the database that the operations on the bots leave that
  -- the requests ask for: a nickname for SetDeviceNick and AddOneDevice, a removal for DeleteOneDevice,
  -- and nothing for a GET, an unreadable body, a missing key, a login, a list or another todo.
  pub run_requests_lem :
      (env : ServerEnv) (requests : List Posted) (db : Db tiny)
      → run_requests env requests db ≡ run_ops (all_edits requests) db
  unfolding run_requests all_edits run_ops
  run_requests_lem env [] db = refl
  run_requests_lem env (request ∷ rest) db =
      rw (run_ops-append (edits request) (all_edits rest) db, ← request_lem env request db)
        (run_requests_lem env rest (handle_usersapi env request db).1)
