-- ===== src/Scd/Stored.antt =====
-- All messages about one token of the daemon (scd/).
use cml.Prelude.{refl, Bool, true, false, Option, none, some, List, [], ◌∷◌, arith}
use cml.Scd.Soft.{new_from_p12}
use cml.Scd.Usb.{usbtoken_new}
use cml.Scd.Token.{Token, Outside}
use cml.Scd.Lockout.{Sound, handle_message-Sound}
use cml.Scd.Refused.{opens_nothing}
use cml.Scd.Store.{
  Kind, kind_none, kind_soft, kind_usb, Command, token_add, token_remove, about_token, Answer,
  added, removed, replied, token_new, add_new, handle_command, Event, handle_commands,
}

-- A token that is there is sound.
abbrev pub SoundStore : Option Token → Type 0
SoundStore none = Unit
SoundStore (some t) = Sound t

token_new-Sound : (kind : Kind) (made : Bool) → SoundStore (add_new (token_new kind made)).1
unfolding token_new add_new new_from_p12 usbtoken_new
token_new-Sound kind_none made = tt
token_new-Sound kind_soft true = record { secrets = refl; limit = omega arith; none_open = λ e. cc }
token_new-Sound kind_soft false = tt
token_new-Sound kind_usb true = record { code = λ e. cc; limit = omega arith; none_open = λ e. cc }
token_new-Sound kind_usb false = tt

handle_command-Sound :
    (kind : Kind) (o : Outside) (made : Bool) (c : Command) (t : Option Token)
    → SoundStore t
    → SoundStore (handle_command kind o made c t).1
unfolding handle_command
handle_command-Sound kind o made token_add (some t) h = h
handle_command-Sound kind o made token_add none h = token_new-Sound kind made
handle_command-Sound kind o made token_remove (some t) h = tt
handle_command-Sound kind o made token_remove none h = tt
handle_command-Sound kind o made (about_token m) none h = tt
handle_command-Sound kind o made (about_token m) (some t) h = handle_message-Sound o m t h

Sound-from :
    (kind : Kind) (es : List Event) (t : Option Token)
    → SoundStore t
    → SoundStore (handle_commands kind es t).1
unfolding handle_commands
Sound-from kind [] t h = h
Sound-from kind (((o, made), c) ∷ es) t h =
    Sound-from kind es (handle_command kind o made c t).1 (handle_command-Sound kind o made c t h)

-- Whatever messages come for one type and uuid from the start of the token daemon on, and whatever files,
-- devices and OpenSSL answer: a token that is then there counts three wrong passphrases at most, and none
-- while it is unlocked; a software token holds its key and certificates exactly while it is unlocked, and
-- a USB token has its code while it is unlocked.
pub handle_commands-Sound :
    (kind : Kind) (es : List Event) → SoundStore (handle_commands kind es none).1
handle_commands-Sound kind es = Sound-from kind es none tt

-- The answers by which no token is unlocked, no key comes out, no passphrase is changed and no token is
-- removed
abbrev pub gives_nothing : Answer → Bool
gives_nothing (added b) = true
gives_nothing (removed b) = false
gives_nothing (replied r) = opens_nothing r

-- A message other than the removal of the token
abbrev pub is_removal : Command → Bool
is_removal token_remove = true
is_removal token_add = false
is_removal (about_token m) = false
