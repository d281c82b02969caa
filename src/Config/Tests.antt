-- ===== src/Config/Tests.antt =====
-- Settings read from small environments, and the theorems at them.
use distributed_cloud_system.Base.{
  ◌≡◌, refl, String, some, none, str_eq, if◌then◌else◌, split, trim_space, trim_left, trim_right,
}
use distributed_cloud_system.Config.{
  Env, load, get_env_int, get_env_list, atoi, digits, digits_from, validate_for_api, byte_length,
  pool_size,
}
use distributed_cloud_system.Config.Lists.{IsPart}

abbrev same : String → String
same s = s

abbrev env : Env
env key =
    if str_eq key "JWT_SECRET"
    then some "0123456789abcdef0123456789abcdef"
    else if str_eq key "DB_MAX_CONNS"
    then some " 40 "
    else if str_eq key "TRUSTED_PROXY_CIDRS"
    then some "10.0.0.1,192.168.0.0/16"
    else none

key_accepted : validate_for_api same (load env) ≡ none
unfolding validate_for_api load byte_length trim_space trim_left trim_right
key_accepted = refl

reads_forty : get_env_int env "DB_MAX_CONNS" 0 ≡ 40
unfolding get_env_int atoi digits digits_from trim_space trim_left trim_right
reads_forty = refl

-- A number past 32 bits wraps around.
wraps :
    pool_size
      (load (λ key. if str_eq key "DB_MAX_CONNS" then some "4294967301" else none)).db_max_conns
    ≡ 5
unfolding pool_size load get_env_int get_env_list atoi digits digits_from trim_space trim_left
    trim_right
wraps = refl

first-IsPart : IsPart "10.0.0.1"
unfolding trim_right split
first-IsPart = (refl, refl, refl)

second-IsPart : IsPart "192.168.0.0/16"
unfolding trim_right split
second-IsPart = (refl, refl, refl)
