-- ===== src/Tests.antt =====
-- An environment and a state to run the functions on, and what the theorems say of such runs.
mod Devices
mod Texts
mod Transfers
mod Clients
mod Witnesses
use ftpii.Base.{
  ℕ, zero, suc, ◌≤◌, ◌≡◌, refl, Bool, true, false, List, [], ◌∷◌, Option, none, some, arith, Bytes,
  codes, length, All,
}
use ftpii.Os.{
  S32, val, err, minus_one, number, enoent, Call, malloc, net_write, net_getfl, net_setfl,
  net_close, net_read, Answer, Stat, Event, Os,
}
use ftpii.World.{World, Client, Ftp, FsState, DvdState, ResetState, mountstate_start}

-- Memory is there, sockets take what they are given, and every other call fails.
abbrev pub answer_code : Call → S32
answer_code (malloc n) = val 1
answer_code (net_write s b) = val (length b)
answer_code (net_getfl s) = val 0
answer_code (net_setfl s flags) = val 0
answer_code (net_close s) = val 0
answer_code _ = err (number 5)

abbrev pub no_stat : Stat
no_stat = record { is_dir = false; size = 0; mtime = 0 }

pub law_net_write-le :
    (s : S32) (b : Bytes) (n : ℕ) → answer_code (net_write s b) ≡ val n → n ≤ length b
law_net_write-le s b n e = ground arith

pub law_net_read-le :
    (s : S32) (len n : ℕ)
    → answer_code (net_read s len) ≡ val n
    → (n ≤ len) × (length {A = ℕ} [] ≡ n)
law_net_read-le s len n e = cc

abbrev pub sample_os : Os
sample_os = record {
  respond = λ past c. record { code = answer_code c; payload = []; info = no_stat };
  maxpathlen = 128;
  sizeof_dir_iter = 12;
  sizeof_client = 1400;
  sizeof_argv = 24;
  argv_at = 0x816FFFE0;
  argv_image = λ command_line length. [];
  has_argv_magic = λ bytes. true;
  garbage = no_stat;
  video_mode = λ n. record { non_interlace = false; fb_width = 640; xfb_height = 480 };
  strerror = λ e. codes "failed";
  inet_aton = λ s. none;
  htons = λ n. n;
  secs_to_ticks = λ n. n;
  ram = λ n. 0;
  timestamp = λ t. codes "Jan 01 1970";
  wpad_has = λ n b. false;
  pad_has = λ n b. false;
  net_write-le = λ past s b n e. law_net_write-le s b n e;
  net_read-le = λ past s len n e. law_net_read-le s len n e;
  fread-le = λ past f len. omega arith;
}

-- A client on socket 3 in `/sd/`, which has not logged in.
abbrev pub guest : Client
guest = record {
  socket = val 3;
  representation_type = b'A';
  passive_socket = val 4;
  data_socket = minus_one;
  cwd = codes "/sd/";
  pending_rename = [];
  restart_marker = 0;
  address_ip = 0;
  address_port = 0;
  authenticated = false;
  buf = [];
  data_connection_connected = false;
  data_callback = none;
  data_connection_callback_arg = none;
  data_connection_cleanup = none;
  data_connection_timer = 0;
}

abbrev heap_of : ℕ → Option Client
heap_of (suc zero) = some guest
heap_of _ = none

-- The guest is client 1, and the password is `wii`.
abbrev pub sample_world : World
sample_world = record {
  trace = [];
  errno = enoent;
  net_buffer_size = 32768;
  ftp = record {
    num_clients = 1;
    passive_port = 1024;
    password = some (codes "wii");
    clients = some 1 ∷ none ∷ none ∷ none ∷ none ∷ [];
    heap = heap_of;
    dirs = λ a. none;
    next = 2;
  };
  fs = record {
    inserted = λ p. false;
    geckofail = λ p. false;
    mountstate = mountstate_start;
    mount_partition = none;
    mount_timer = 0;
    device_check_timer = 0;
  };
  dvd = record { mount_wait = false; last_stopped = 0 };
  reset = record { reset = false; power = false };
}
