-- ===== src/Message/Types.antt =====
-- The types of messages that analyzer/msg.c serializes, of analyzer/msg.h.
use suscan.Prelude.{ℕ, ◌≡◌, refl, Option, none, some, ◌==◌, if◌then◌else◌}

pub data MessageType : Type 0 where
  type_source_info type_source_init type_channel type_eos type_read_error type_inspector :
      MessageType
  type_psd type_samples type_throttle type_params type_get_params type_seek : MessageType

unfoldable pub type_number : MessageType → ℕ
type_number type_source_info = 0
type_number type_source_init = 1
type_number type_channel = 2
type_number type_eos = 3
type_number type_read_error = 4
type_number type_inspector = 7
type_number type_psd = 8
type_number type_samples = 9
type_number type_throttle = 10
type_number type_params = 11
type_number type_get_params = 12
type_number type_seek = 13

-- The case of the `switch` that a number takes, none for its default
unfoldable pub type_of : ℕ → Option MessageType
type_of n =
    if n == 0
    then some type_source_info
    else if n == 1
    then some type_source_init
    else if n == 2
    then some type_channel
    else if n == 3
    then some type_eos
    else if n == 4
    then some type_read_error
    else if n == 7
    then some type_inspector
    else if n == 8
    then some type_psd
    else if n == 9
    then some type_samples
    else if n == 10
    then some type_throttle
    else if n == 11
    then some type_params
    else if n == 12
    then some type_get_params
    else if n == 13
    then some type_seek
    else none

-- Each type takes its own case.
pub type_of-type_number : (type : MessageType) → type_of (type_number type) ≡ some type
unfolding type_of type_number
type_of-type_number type_source_info = refl
type_of-type_number type_source_init = refl
type_of-type_number type_channel = refl
type_of-type_number type_eos = refl
type_of-type_number type_read_error = refl
type_of-type_number type_inspector = refl
type_of-type_number type_psd = refl
type_of-type_number type_samples = refl
type_of-type_number type_throttle = refl
type_of-type_number type_params = refl
type_of-type_number type_get_params = refl
type_of-type_number type_seek = refl
