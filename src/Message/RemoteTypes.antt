-- ===== src/Message/RemoteTypes.antt =====
-- The types of remote calls, `enum suscan_analyzer_remote_type` of analyzer/impl/remote.h.
use suscan.Prelude.{ℕ, ◌≡◌, refl, Option, none, some, ◌==◌, if◌then◌else◌}

pub data RemoteType : Type 0 where
  remote_auth_info remote_source_info remote_set_frequency remote_set_gain remote_set_antenna :
      RemoteType
  remote_set_ppm remote_set_bandwidth remote_set_dc_remove remote_set_iq_reverse remote_set_agc :
      RemoteType
  remote_force_eos remote_set_sweep_strategy remote_set_spectrum_partitioning remote_set_hop_range
        remote_set_buffering_size :
      RemoteType
  remote_message remote_req_halt remote_auth_rejected remote_startup_error : RemoteType

unfoldable pub remote_number : RemoteType → ℕ
remote_number remote_auth_info = 1
remote_number remote_source_info = 2
remote_number remote_set_frequency = 3
remote_number remote_set_gain = 4
remote_number remote_set_antenna = 5
remote_number remote_set_ppm = 6
remote_number remote_set_bandwidth = 7
remote_number remote_set_dc_remove = 8
remote_number remote_set_iq_reverse = 9
remote_number remote_set_agc = 10
remote_number remote_force_eos = 11
remote_number remote_set_sweep_strategy = 12
remote_number remote_set_spectrum_partitioning = 13
remote_number remote_set_hop_range = 14
remote_number remote_set_buffering_size = 15
remote_number remote_message = 16
remote_number remote_req_halt = 17
remote_number remote_auth_rejected = 18
remote_number remote_startup_error = 19

-- The case of the `switch` that a number takes, none for its default
unfoldable pub remote_of : ℕ → Option RemoteType
remote_of n =
    if n == 1
    then some remote_auth_info
    else if n == 2
    then some remote_source_info
    else if n == 3
    then some remote_set_frequency
    else if n == 4
    then some remote_set_gain
    else if n == 5
    then some remote_set_antenna
    else if n == 6
    then some remote_set_ppm
    else if n == 7
    then some remote_set_bandwidth
    else if n == 8
    then some remote_set_dc_remove
    else if n == 9
    then some remote_set_iq_reverse
    else if n == 10
    then some remote_set_agc
    else if n == 11
    then some remote_force_eos
    else if n == 12
    then some remote_set_sweep_strategy
    else if n == 13
    then some remote_set_spectrum_partitioning
    else if n == 14
    then some remote_set_hop_range
    else if n == 15
    then some remote_set_buffering_size
    else if n == 16
    then some remote_message
    else if n == 17
    then some remote_req_halt
    else if n == 18
    then some remote_auth_rejected
    else if n == 19
    then some remote_startup_error
    else none

-- Each type takes its own case.
pub remote_of-remote_number : (type : RemoteType) → remote_of (remote_number type) ≡ some type
unfolding remote_of remote_number
remote_of-remote_number remote_auth_info = refl
remote_of-remote_number remote_source_info = refl
remote_of-remote_number remote_set_frequency = refl
remote_of-remote_number remote_set_gain = refl
remote_of-remote_number remote_set_antenna = refl
remote_of-remote_number remote_set_ppm = refl
remote_of-remote_number remote_set_bandwidth = refl
remote_of-remote_number remote_set_dc_remove = refl
remote_of-remote_number remote_set_iq_reverse = refl
remote_of-remote_number remote_set_agc = refl
remote_of-remote_number remote_force_eos = refl
remote_of-remote_number remote_set_sweep_strategy = refl
remote_of-remote_number remote_set_spectrum_partitioning = refl
remote_of-remote_number remote_set_hop_range = refl
remote_of-remote_number remote_set_buffering_size = refl
remote_of-remote_number remote_message = refl
remote_of-remote_number remote_req_halt = refl
remote_of-remote_number remote_auth_rejected = refl
remote_of-remote_number remote_startup_error = refl
