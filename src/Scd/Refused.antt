-- ===== src/Scd/Refused.antt =====
-- What a token still answers after three wrong passphrases (scd/).
use cml.Prelude.{
  ℕ, suc, pos, minus_one, ◌<◌, ◌≡◌, refl, Bool, true, false, none, some, List, [], ◌∷◌, All, ◌==ℤ◌,
  not, arith, ◌∙◌, leb, ◌+◌, length, ◌&&◌,
}
use cml.Scd.Soft
use cml.Scd.Soft.{Passphrase, File, Softtoken, new_from_p12}
use cml.Scd.Usb
use cml.Scd.Usb.{Device, Usbtoken}
use cml.Scd.Token.{
  Token, soft, usb, Outside, is_locked, is_locked_till_reboot, Message, unlock_token, lock_token,
  wrap, unwrap, change_pin, provision_pin, Reply, unlock_failed, locked_till_reboot,
  lock_successful, wrapped_key, unwrapped_key, change_pin_failed, unlock, lock, handle_message,
}
use cml.Scd.Lockout.{Request, handle_all}

-- A token that takes no more passphrases.
pub record LockedOut (t : Token) : Type 0 where
  pub locked : is_locked t ≡ true
  pub limit : is_locked_till_reboot t ≡ true

-- The replies by which no token is unlocked, no key comes out and no passphrase is changed; that a token
-- is locked is one of them.
abbrev pub opens_nothing : Reply → Bool
opens_nothing unlock_failed = true
opens_nothing locked_till_reboot = true
opens_nothing lock_successful = true
opens_nothing (wrapped_key b) = not b
opens_nothing (unwrapped_key b) = not b
opens_nothing change_pin_failed = true
opens_nothing _ = false

lock-LockedOut : (t : Token) → LockedOut t → LockedOut (lock t).1 × ((lock t).0 ≡ pos 0)
unfolding lock Soft.lock Usb.lock Soft.free_secrets is_locked_till_reboot Soft.is_locked_till_reboot
    Usb.is_locked_till_reboot
lock-LockedOut (soft t) h = let h1 = h.locked in let h2 = h.limit in ground arith
lock-LockedOut (usb t) h = (record { locked = refl; limit = h.limit }, refl)

pub handle_message-LockedOut :
    (o : Outside) (m : Message) (t : Token)
    → LockedOut t
    → (opens_nothing (handle_message o m t).0 ≡ true) × LockedOut (handle_message o m t).1
unfolding handle_message
handle_message-LockedOut o (unlock_token none) t h = (refl, h)
handle_message-LockedOut o (unlock_token (some pin)) t h = rw h.limit (refl, h)
handle_message-LockedOut o lock_token t h = let (k, e) = lock-LockedOut t h in (rw e refl, k)
handle_message-LockedOut o (wrap b) t h = (rw h.locked refl, h)
handle_message-LockedOut o (unwrap b) t h = (rw h.locked refl, h)
handle_message-LockedOut o (change_pin none q b) t h = (refl, h)
handle_message-LockedOut o (change_pin (some p) none b) t h = (refl, h)
handle_message-LockedOut o (change_pin (some p) (some q) false) t h = (refl, h)
handle_message-LockedOut o (change_pin (some p) (some q) true) t h = rw h.limit (refl, h)
handle_message-LockedOut o (provision_pin none q) t h = (refl, h)
handle_message-LockedOut o (provision_pin (some p) q) t h = rw h.limit (refl, h)

handle_all-LockedOut :
    (rs : List Request) (t : Token)
    → LockedOut t
    → All (λ r. opens_nothing r ≡ true) (handle_all rs t).0
unfolding handle_all
handle_all-LockedOut [] t h = tt
handle_all-LockedOut ((o, m) ∷ rs) t h =
    let (k, g) = handle_message-LockedOut o m t h in
    (k, handle_all-LockedOut rs (handle_message o m t).1 g)

-- A wrong passphrase for a token
abbrev pub is_wrong : Outside → Passphrase → Token → Bool
is_wrong o p (soft t) = o.file.exists && (o.file.read p ==ℤ minus_one)
is_wrong o p (usb t) = elim (o.device.auth_code p) [
  | none ↦ false
  | some c ↦ not (o.device.verify c)
]

abbrev pub attempts : Token → ℕ
attempts (soft t) = t.wrong_unlock_attempts
attempts (usb t) = t.wrong_unlock_attempts

wrong_unlock :
    (o : Outside) (p : Passphrase) (t : Token)
    → is_locked t ≡ true
    → is_wrong o p t ≡ true
    → attempts t < 3
    → (is_locked (unlock o p t).1 ≡ true) × (attempts (unlock o p t).1 ≡ suc (attempts t))
unfolding unlock Soft.unlock Usb.unlock Usb.unlock_with Usb.authenticate_user Soft.free_secrets
    Soft.is_locked_till_reboot Usb.is_locked_till_reboot
wrong_unlock o p (soft t) h1 h2 h3 = ground arith
wrong_unlock o p (usb t) h1 h2 h3 = ground arith

is_wrong-unlock :
    (o o' : Outside) (p p' : Passphrase) (t : Token)
    → is_wrong o p (unlock o' p' t).1 ≡ is_wrong o p t
unfolding unlock
is_wrong-unlock o o' p p' (soft t) = refl
is_wrong-unlock o o' p p' (usb t) = refl

limit-attempts : (t : Token) → is_locked_till_reboot t ≡ leb 3 (attempts t)
unfolding is_locked_till_reboot Soft.is_locked_till_reboot Usb.is_locked_till_reboot
limit-attempts (soft t) = refl
limit-attempts (usb t) = refl

abbrev pub Guess : Type 0
Guess = Outside × Passphrase

abbrev pub unlocks : List Guess → List Request
unlocks [] = []
unlocks ((o, p) ∷ gs) = (o, unlock_token (some p)) ∷ unlocks gs

-- Wrong for a token of this kind
abbrev pub AllWrong : List Guess → Token → Type 0
AllWrong gs t = All (λ (o, p). is_wrong o p t ≡ true) gs

AllWrong-unlock :
    (o : Outside) (p : Passphrase) (t : Token) (gs : List Guess)
    → AllWrong gs t
    → AllWrong gs (unlock o p t).1
AllWrong-unlock o p t [] h = tt
AllWrong-unlock o p t ((o', p') ∷ gs) (h, hs) =
    (is_wrong-unlock o' o p' p t ∙ h, AllWrong-unlock o p t gs hs)

pub wrong-LockedOut :
    (gs : List Guess) (t : Token)
    → is_locked t ≡ true
    → attempts t + length gs ≡ 3
    → AllWrong gs t
    → LockedOut (handle_all (unlocks gs) t).1
unfolding handle_all handle_message
wrong-LockedOut [] t l n h = record { locked = l; limit = limit-attempts t ∙ ground arith }
wrong-LockedOut ((o, p) ∷ gs) t l n (h, hs) =
    let few : attempts t < 3 = omega arith in
    let (l', n') = wrong_unlock o p t l h few in
    let free : is_locked_till_reboot t ≡ false = limit-attempts t ∙ ground arith in
    rw (handle_all, handle_message, free)
      (wrong-LockedOut gs (unlock o p t).1 l' (omega (arith, n')) (AllWrong-unlock o p t gs hs))

-- A locked token that is offered wrong passphrases to unlock it, until it has three in a row, answers every
-- later message about its lock, keys and passphrase without unlocking, without a key and without a change
-- of the passphrase, whatever the file, the device and OpenSSL answer; that a lock succeeded is still
-- told. Messages that add and remove tokens are not among these.
pub wrong-Refused :
    (gs : List Guess) (rs : List Request) (t : Token)
    → is_locked t ≡ true
    → attempts t + length gs ≡ 3
    → AllWrong gs t
    → All (λ r. opens_nothing r ≡ true) (handle_all rs (handle_all (unlocks gs) t).1).0
wrong-Refused gs rs t l n h =
    handle_all-LockedOut rs (handle_all (unlocks gs) t).1 (wrong-LockedOut gs t l n h)
