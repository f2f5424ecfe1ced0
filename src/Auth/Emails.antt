-- ===== src/Auth/Emails.antt =====
-- Emails that are taken stay taken, whatever calls of later registrations fail.
use Prim.Native.String.{String}
use ticket_queue_platform.Prelude.{ℕ, ◌≡◌, true, or_else, is_some, List, Bool, [], ◌∷◌, arith}
use ticket_queue_platform.Errors.{unique_violation, app_error, text}
use ticket_queue_platform.Schema.{User, Role}
use ticket_queue_platform.Platform.{Platform, World, now}
use ticket_queue_platform.Platform.Rules.{
  Keeps, bind_Keeps, query-Keeps, write-Keeps, pure-Keeps, throw_if-Keeps, kept_after,
}
use ticket_queue_platform.Auth.Repository.{create_user, find_user_by_email}
use ticket_queue_platform.Auth.Service.{RegisterInput, register, hash_password, to_user_dto}

-- whether an account has the email
abbrev pub Taken : {p : Platform} → String → World p → Type 0
Taken {p} e v = is_some (p.users.find_by_email e v.users) ≡ true

-- later registrations, each with its plan of failing calls
abbrev pub register_all : {p : Platform} → List (List Bool × RegisterInput) → World p → World p
register_all [] v = v
register_all ((fs, x) ∷ xs) v = register_all xs (register x (record v { faults = fs })).1

module _ (p : Platform) (e : String) where
  inserted-Taken :
      (i : ℕ) (u : User p.crypto.Digest) (rows : p.users.Rows)
      → is_some (p.users.find_by_email e rows) ≡ true
      → is_some (p.users.find_by_email e (p.users.inserted i u rows)) ≡ true
  inserted-Taken i u rows h = ground (arith, p.users.find_by_email-inserted e i u rows)

  create_user-Taken : (u : User p.crypto.Digest) → Keeps {p = p} (Taken e) (create_user u)
  unfolding create_user
  create_user-Taken u = record {
    run = λ w.
        (bind_Keeps
            (write-Keeps (λ v. p.users.create (p.users.fresh w.users) u v.users) unique_violation
              (λ rows v. record v { users = rows }) (λ v fs h. h)
              (λ v rows made h. ground (
                arith,
                made,
                p.users.create_lem (p.users.fresh w.users) u v.users,
                inserted-Taken (p.users.fresh w.users) u v.users h,
              )))
            (λ _. pure-Keeps)).run
          w;
  }

  find_user_by_email-Taken : (x : String) → Keeps {p = p} (Taken e) (find_user_by_email x)
  unfolding find_user_by_email
  find_user_by_email-Taken x = query-Keeps (λ v fs h. h)

  hash_password-Taken : (x : String) → Keeps {p = p} (Taken e) (hash_password x)
  unfolding hash_password
  hash_password-Taken x = record { run = λ w h. h }

  now-Taken : Keeps {p = p} (Taken e) now
  now-Taken = record { run = λ w h. h }

  abbrev user_at : RegisterInput → p.crypto.Digest → ℕ → User p.crypto.Digest
  user_at x hashed t = record {
    email = x.email;
    password = hashed;
    nickname = x.nickname;
    role = or_else x.role Role.user;
    created_at = t;
  }

  -- A registration, whatever calls of it fail, frees no email.
  register-Taken : (x : RegisterInput) → Keeps {p = p} (Taken e) (register x)
  unfolding register
  register-Taken x = bind_Keeps (find_user_by_email-Taken x.email) λ existing.
      bind_Keeps (throw_if-Keeps (is_some existing) (app_error 409 (text "이미 사용 중인 이메일입니다"))) λ _.
        bind_Keeps (hash_password-Taken x.password) λ hashed. bind_Keeps now-Taken λ t.
          bind_Keeps (create_user-Taken (user_at x hashed t))
            λ id. pure-Keeps {a = to_user_dto id (user_at x hashed t)}

  pub register_all-Taken :
      (xs : List (List Bool × RegisterInput)) (v : World p)
      → Taken e v
      → Taken e (register_all xs v)
  register_all-Taken [] v h = h
  register_all-Taken ((fs, x) ∷ xs) v h =
      register_all-Taken xs (register x (record v { faults = fs })).1
        (kept_after (register-Taken x) (record v { faults = fs }) h)
