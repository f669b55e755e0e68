-- ===== src/Scd/Soft.antt =====
-- Software tokens (scd/softtoken.c). What is read from the token's file is an argument: whether the
-- file exists, and what the reading answers to a passphrase: 0, -1 for a wrong passphrase, or
-- another code.
use cml.Prelude.{ℕ, ℤ, pos, minus_one, ◌+◌, leb, ◌==ℤ◌, Bool, true, false, List, if◌then◌else◌, not}

abbrev pub Passphrase : Type 0
Passphrase = List ℕ

-- SOFTTOKEN_MAX_WRONG_UNLOCK_ATTEMPTS
abbrev pub max_wrong_unlock_attempts : ℕ
max_wrong_unlock_attempts = 3

-- What the file system and the token's file answer
pub record File : Type 0 where
  pub exists : Bool
  pub read : Passphrase → ℤ
  pub newpass : Passphrase → Passphrase → ℤ

-- struct softtoken: `secrets` says whether key and certificates are held.
pub record Softtoken : Type 0 where
  pub locked : Bool
  pub wrong_unlock_attempts : ℕ
  pub secrets : Bool

-- softtoken_new_from_p12
unfoldable pub new_from_p12 : Softtoken
new_from_p12 = record { locked = true; wrong_unlock_attempts = 0; secrets = false }

-- softtoken_free_secrets
unfoldable pub free_secrets : Softtoken → Softtoken
free_secrets t = record t { secrets = false }

-- softtoken_is_locked_till_reboot
unfoldable pub is_locked_till_reboot : Softtoken → Bool
is_locked_till_reboot t = leb max_wrong_unlock_attempts t.wrong_unlock_attempts

-- softtoken_unlock
unfoldable pub unlock : File → Passphrase → Softtoken → ℤ × Softtoken
unfolding is_locked_till_reboot free_secrets
unlock f passphrase t =
    if not t.locked
    then (pos 0, t)
    else if is_locked_till_reboot t
    then (minus_one, t)
    else if not f.exists
    then (minus_one, t)
    else (let res = f.read passphrase in
        if res ==ℤ minus_one
        then (res, free_secrets (record t { wrong_unlock_attempts = t.wrong_unlock_attempts + 1 }))
        else if res ==ℤ pos 0
        then (res, record { locked = false; wrong_unlock_attempts = 0; secrets = true })
        else (res, free_secrets t))

-- softtoken_lock
unfoldable pub lock : Softtoken → ℤ × Softtoken
unfolding free_secrets
lock t = if t.locked then (pos 0, t) else (pos 0, record (free_secrets t) { locked = true })

-- softtoken_wrap_key and softtoken_unwrap_key, with what OpenSSL answers
unfoldable pub wrap_key : ℤ → Softtoken → ℤ
wrap_key answer t = if t.locked then minus_one else answer

unfoldable pub unwrap_key : ℤ → Softtoken → ℤ
unwrap_key answer t = if t.locked then minus_one else answer

-- softtoken_change_passphrase
unfoldable pub change_passphrase : File → Passphrase → Passphrase → Softtoken → ℤ × Softtoken
change_passphrase f oldpass newpass t = (f.newpass oldpass newpass, t)
