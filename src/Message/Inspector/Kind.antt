-- ===== src/Message/Inspector/Kind.antt =====
-- The kinds of inspector messages, `enum suscan_analyzer_inspector_msgkind` of analyzer/msg.h.
use suscan.Prelude.{◌<◌, arith, ℕ, ◌≡◌, refl, Option, none, some, ◌==◌, if◌then◌else◌}

-- Kinds whose messages have no body
pub data EmptyKind : Type 0 where
  msgkind_noop msgkind_set_id msgkind_get_config msgkind_reset_equalizer msgkind_close
        msgkind_wrong_handle :
      EmptyKind
  msgkind_wrong_object msgkind_invalid_argument msgkind_wrong_kind msgkind_invalid_channel
        msgkind_invalid_correction :
      EmptyKind

pub data MsgKind : Type 0 where
  msgkind_open msgkind_set_config msgkind_estimator msgkind_spectrum msgkind_set_freq : MsgKind
  msgkind_set_bandwidth msgkind_set_watermark msgkind_set_tle msgkind_orbit_report : MsgKind
  empty_kind : EmptyKind → MsgKind

-- The number that C gives an enumerator
unfoldable pub empty_number : EmptyKind → ℕ
empty_number msgkind_noop = 0
empty_number msgkind_set_id = 2
empty_number msgkind_get_config = 3
empty_number msgkind_reset_equalizer = 7
empty_number msgkind_close = 8
empty_number msgkind_wrong_handle = 12
empty_number msgkind_wrong_object = 13
empty_number msgkind_invalid_argument = 14
empty_number msgkind_wrong_kind = 15
empty_number msgkind_invalid_channel = 16
empty_number msgkind_invalid_correction = 19

unfoldable pub kind_number : MsgKind → ℕ
unfolding empty_number
kind_number msgkind_open = 1
kind_number msgkind_set_config = 4
kind_number msgkind_estimator = 5
kind_number msgkind_spectrum = 6
kind_number msgkind_set_freq = 9
kind_number msgkind_set_bandwidth = 10
kind_number msgkind_set_watermark = 11
kind_number msgkind_set_tle = 17
kind_number msgkind_orbit_report = 18
kind_number (empty_kind kind) = empty_number kind

-- The case of the `switch` that a number takes, none for its default
unfoldable pub kind_of : ℕ → Option MsgKind
kind_of n =
    if n == 0
    then some (empty_kind msgkind_noop)
    else if n == 1
    then some msgkind_open
    else if n == 2
    then some (empty_kind msgkind_set_id)
    else if n == 3
    then some (empty_kind msgkind_get_config)
    else if n == 4
    then some msgkind_set_config
    else if n == 5
    then some msgkind_estimator
    else if n == 6
    then some msgkind_spectrum
    else if n == 7
    then some (empty_kind msgkind_reset_equalizer)
    else if n == 8
    then some (empty_kind msgkind_close)
    else if n == 9
    then some msgkind_set_freq
    else if n == 10
    then some msgkind_set_bandwidth
    else if n == 11
    then some msgkind_set_watermark
    else if n == 12
    then some (empty_kind msgkind_wrong_handle)
    else if n == 13
    then some (empty_kind msgkind_wrong_object)
    else if n == 14
    then some (empty_kind msgkind_invalid_argument)
    else if n == 15
    then some (empty_kind msgkind_wrong_kind)
    else if n == 16
    then some (empty_kind msgkind_invalid_channel)
    else if n == 17
    then some msgkind_set_tle
    else if n == 18
    then some msgkind_orbit_report
    else if n == 19
    then some (empty_kind msgkind_invalid_correction)
    else none

-- Each enumerator takes its own case.
pub kind_of-kind_number : (kind : MsgKind) → kind_of (kind_number kind) ≡ some kind
unfolding kind_of kind_number empty_number
kind_of-kind_number msgkind_open = refl
kind_of-kind_number msgkind_set_config = refl
kind_of-kind_number msgkind_estimator = refl
kind_of-kind_number msgkind_spectrum = refl
kind_of-kind_number msgkind_set_freq = refl
kind_of-kind_number msgkind_set_bandwidth = refl
kind_of-kind_number msgkind_set_watermark = refl
kind_of-kind_number msgkind_set_tle = refl
kind_of-kind_number msgkind_orbit_report = refl
kind_of-kind_number (empty_kind msgkind_noop) = refl
kind_of-kind_number (empty_kind msgkind_set_id) = refl
kind_of-kind_number (empty_kind msgkind_get_config) = refl
kind_of-kind_number (empty_kind msgkind_reset_equalizer) = refl
kind_of-kind_number (empty_kind msgkind_close) = refl
kind_of-kind_number (empty_kind msgkind_wrong_handle) = refl
kind_of-kind_number (empty_kind msgkind_wrong_object) = refl
kind_of-kind_number (empty_kind msgkind_invalid_argument) = refl
kind_of-kind_number (empty_kind msgkind_wrong_kind) = refl
kind_of-kind_number (empty_kind msgkind_invalid_channel) = refl
kind_of-kind_number (empty_kind msgkind_invalid_correction) = refl

pub kind_number_small : (kind : MsgKind) → kind_number kind < 20
unfolding kind_number empty_number
kind_number_small msgkind_open = omega arith
kind_number_small msgkind_set_config = omega arith
kind_number_small msgkind_estimator = omega arith
kind_number_small msgkind_spectrum = omega arith
kind_number_small msgkind_set_freq = omega arith
kind_number_small msgkind_set_bandwidth = omega arith
kind_number_small msgkind_set_watermark = omega arith
kind_number_small msgkind_set_tle = omega arith
kind_number_small msgkind_orbit_report = omega arith
kind_number_small (empty_kind msgkind_noop) = omega arith
kind_number_small (empty_kind msgkind_set_id) = omega arith
kind_number_small (empty_kind msgkind_get_config) = omega arith
kind_number_small (empty_kind msgkind_reset_equalizer) = omega arith
kind_number_small (empty_kind msgkind_close) = omega arith
kind_number_small (empty_kind msgkind_wrong_handle) = omega arith
kind_number_small (empty_kind msgkind_wrong_object) = omega arith
kind_number_small (empty_kind msgkind_invalid_argument) = omega arith
kind_number_small (empty_kind msgkind_wrong_kind) = omega arith
kind_number_small (empty_kind msgkind_invalid_channel) = omega arith
kind_number_small (empty_kind msgkind_invalid_correction) = omega arith

pub kind_of-empty_number : (kind : EmptyKind) → kind_of (empty_number kind) ≡ some (empty_kind kind)
unfolding kind_number
kind_of-empty_number kind = kind_of-kind_number (empty_kind kind)
