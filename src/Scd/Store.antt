-- ===== src/Scd/Store.antt =====
-- The daemon's token for one type and uuid (scd/scd.c, token_new of scd/token.c), and all messages about it
-- (scd/control.c). There is one at most, since a new one is only made when none is found.
use cml.Prelude.{Bool, true, false, Option, none, some, List, [], ◌∷◌, if◌then◌else◌}
use cml.Scd.Soft.{new_from_p12}
use cml.Scd.Usb.{usbtoken_new}
use cml.Scd.Token.{Token, soft, usb, Outside, Message, Reply, handle_message, no_token}

-- scd_tokentype_t
pub data Kind : Type 0 where
  kind_none kind_soft kind_usb : Kind

-- DaemonToToken, with the messages that add and remove a token
pub data Command : Type 0 where
  token_add token_remove : Command
  about_token : Message → Command

-- TokenToDaemon; whether the token was added or removed
pub data Answer : Type 0 where
  added removed : Bool → Answer
  replied : Reply → Answer

-- token_new; `made` says whether the token's file is there or made, or its device answers.
unfoldable pub token_new : Kind → Bool → Option Token
token_new kind_none made = none
token_new kind_soft made = if made then some (soft new_from_p12) else none
token_new kind_usb made = if made then some (usb usbtoken_new) else none

-- TOKEN_ADD when no token is found
unfoldable pub add_new : Option Token → Answer × Option Token
add_new none = (added false, none)
add_new (some t) = (added true, some t)

-- scd_control_handle_message
unfoldable pub handle_command :
    Kind → Outside → Bool → Command → Option Token → Answer × Option Token
handle_command kind o made token_add (some t) = (added true, some t)
handle_command kind o made token_add none = add_new (token_new kind made)
handle_command kind o made token_remove (some t) = (removed true, none)
handle_command kind o made token_remove none = (removed false, none)
handle_command kind o made (about_token m) none = (replied (no_token m), none)
handle_command kind o made (about_token m) (some t) =
    let (reply, u) = handle_message o m t in (replied reply, some u)

-- A message, with what is outside at that time and whether a token can be made
abbrev pub Event : Type 0
Event = (Outside × Bool) × Command

-- The messages one after the other
unfoldable pub handle_commands : Kind → List Event → Option Token → List Answer × Option Token
handle_commands kind [] t = ([], t)
handle_commands kind (((o, made), c) ∷ rest) t =
    let (answer, u) = handle_command kind o made c t in
    let (answers, v) = handle_commands kind rest u in (answer ∷ answers, v)
