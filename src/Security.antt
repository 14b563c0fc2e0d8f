-- ===== src/Security.antt =====
-- src/utils/security.py: policies, firewall rules and access tokens. Random tokens are arguments.
-- A policy's numbers and texts are a record, its lists of system calls stand beside it.
pub mod Tokens
use Prim.Native.String.{◌++◌}
use disposable_compute_platf.Prelude.{ℕ, String, Bool, true, List, [], ◌∷◌, if◌then◌else◌, str_eq}
use disposable_compute_platf.Prelude.Dict.{Dict, put}

pub record Policy : Type 0 where
  pub cpu_quota : String
  pub memory_limit : String
  pub disk_quota : String
  pub network_rate_limit : String
  pub max_processes : ℕ
  pub read_only_root : Bool
  pub no_new_privileges : Bool
  pub allowed_syscalls : List String
  pub blocked_syscalls : List String

abbrev pub default_policies : Policy
default_policies = record {
  cpu_quota = "1000m";
  memory_limit = "1G";
  disk_quota = "5G";
  network_rate_limit = "100mbps";
  max_processes = 32;
  read_only_root = true;
  no_new_privileges = true;
  allowed_syscalls =
      "read" ∷ "write" ∷ "open" ∷ "close" ∷ "stat" ∷ "fstat" ∷ "lstat" ∷ "poll" ∷ "lseek" ∷ "mmap"
      ∷ "mprotect" ∷ "munmap" ∷ "brk" ∷ "rt_sigaction" ∷ "rt_sigprocmask" ∷ "rt_sigreturn" ∷ "ioctl"
      ∷ "pread64" ∷ "pwrite64" ∷ "readv" ∷ "writev" ∷ "access" ∷ "pipe" ∷ "select" ∷ "sched_yield"
      ∷ "mremap" ∷ "msync" ∷ "mincore" ∷ "madvise" ∷ "shmget" ∷ "shmat" ∷ "shmctl" ∷ "dup" ∷ "dup2"
      ∷ "pause" ∷ "nanosleep" ∷ "getitimer" ∷ "alarm" ∷ "setitimer" ∷ "getpid" ∷ "sendfile"
      ∷ "socket" ∷ "connect" ∷ "accept" ∷ "sendto" ∷ "recvfrom" ∷ "sendmsg" ∷ "recvmsg" ∷ "shutdown"
      ∷ "bind" ∷ "listen" ∷ "getsockname" ∷ "getpeername" ∷ "socketpair" ∷ "setsockopt"
      ∷ "getsockopt" ∷ "clone" ∷ "fork" ∷ "vfork" ∷ "execve" ∷ "exit" ∷ "wait4" ∷ "kill" ∷ "uname"
      ∷ "semget" ∷ "semop" ∷ "semctl" ∷ "shmdt" ∷ "msgget" ∷ "msgsnd" ∷ "msgrcv" ∷ "msgctl"
      ∷ "fcntl" ∷ "flock" ∷ "fsync" ∷ "fdatasync" ∷ "truncate" ∷ "ftruncate" ∷ "getdents" ∷ "getcwd"
      ∷ "chdir" ∷ "rename" ∷ "mkdir" ∷ "rmdir" ∷ "creat" ∷ "link" ∷ "unlink" ∷ "symlink"
      ∷ "readlink" ∷ "chmod" ∷ "fchmod" ∷ "chown" ∷ "fchown" ∷ "lchown" ∷ "umask" ∷ "gettimeofday"
      ∷ "getrlimit" ∷ "getuid" ∷ "geteuid" ∷ "getgid" ∷ "getegid" ∷ "setpgid" ∷ "getppid"
      ∷ "getpgrp" ∷ "setsid" ∷ "setreuid" ∷ "setregid" ∷ "getgroups" ∷ "setgroups" ∷ "setresuid"
      ∷ "getresuid" ∷ "setresgid" ∷ "getresgid" ∷ "getpgid" ∷ "setfsuid" ∷ "setfsgid" ∷ "times"
      ∷ "setrlimit" ∷ "getrusage" ∷ "gettimeofday" ∷ "settimeofday" ∷ "getpid" ∷ "getppid"
      ∷ "getuid" ∷ "geteuid" ∷ "getgid" ∷ "getegid" ∷ "getpgid" ∷ "setpgid" ∷ "setsid" ∷ "setreuid"
      ∷ "setregid" ∷ "getgroups" ∷ "setgroups" ∷ "setresuid" ∷ "getresuid" ∷ "setresgid"
      ∷ "getresgid" ∷ "getpgid" ∷ "setfsuid" ∷ "setfsgid" ∷ "getsid" ∷ "capget" ∷ "capset"
      ∷ "personality" ∷ "arch_prctl" ∷ "set_thread_area" ∷ "get_thread_area" ∷ "unmap" ∷ "mprotect"
      ∷ [];
  blocked_syscalls =
      "open_by_handle_at" ∷ "init_module" ∷ "finit_module" ∷ "delete_module" ∷ "iopl" ∷ "ioperm"
      ∷ "swapon" ∷ "swapoff" ∷ "syslog" ∷ "reboot" ∷ "settimeofday" ∷ "stime" ∷ "adjtimex"
      ∷ "clock_settime" ∷ "clock_adjtime" ∷ "lookup_dcookie" ∷ "fanotify_init" ∷ "fanotify_mark"
      ∷ "quotactl" ∷ "mount" ∷ "umount2" ∷ "pivot_root" ∷ "chroot" ∷ "acct" ∷ "setdomainname"
      ∷ "sethostname" ∷ "vhangup" ∷ "modify_ldt" ∷ "writev" ∷ "pciconfig_read" ∷ "pciconfig_write"
      ∷ "bpf" ∷ "kexec_load" ∷ "execveat" ∷ "userfaultfd" ∷ "perf_event_open" ∷ "membarrier"
      ∷ "mlock" ∷ "mlockall" ∷ "munlock" ∷ "munlockall" ∷ "name_to_handle_at" ∷ "unshare" ∷ "setns"
      ∷ "mount" ∷ "umount2" ∷ "pivot_root" ∷ "chroot" ∷ "init_module" ∷ "finit_module"
      ∷ "delete_module" ∷ "iopl" ∷ "ioperm" ∷ "swapon" ∷ "swapoff" ∷ "syslog" ∷ "reboot"
      ∷ "settimeofday" ∷ "stime" ∷ "adjtimex" ∷ "clock_settime" ∷ "clock_adjtime" ∷ "lookup_dcookie"
      ∷ "fanotify_init" ∷ "fanotify_mark" ∷ "quotactl" ∷ "mount" ∷ "umount2" ∷ "pivot_root"
      ∷ "chroot" ∷ "acct" ∷ "setdomainname" ∷ "sethostname" ∷ "vhangup" ∷ "modify_ldt" ∷ "writev"
      ∷ "pciconfig_read" ∷ "pciconfig_write" ∷ "bpf" ∷ "kexec_load" ∷ "execveat" ∷ "userfaultfd"
      ∷ "perf_event_open" ∷ "membarrier" ∷ "mlock" ∷ "mlockall" ∷ "munlock" ∷ "munlockall"
      ∷ "name_to_handle_at" ∷ "unshare" ∷ "setns" ∷ [];
}

unfoldable pub get_policy_for_session_type : String → Policy
get_policy_for_session_type session_type =
    if str_eq session_type "preview"
    then record default_policies { cpu_quota = "2000m"; memory_limit = "2G"; disk_quota = "10G" }
    else if str_eq session_type "fork_gui"
    then record default_policies { memory_limit = "2G"; disk_quota = "8G" }
    else default_policies

unfoldable pub create_cgroup_for_session : String → String
create_cgroup_for_session session_id = "/sys/fs/cgroup/disposable/" ++ session_id

pub record DockerOptions : Type 0 where
  pub mem_limit : String
  pub memswap_limit : String
  pub cpu_quota : String
  pub blkio_weight : ℕ
  pub pids_limit : ℕ

unfoldable pub apply_resource_limits : String → DockerOptions
unfolding get_policy_for_session_type
apply_resource_limits session_type =
    let policy = get_policy_for_session_type session_type in
    record {
      mem_limit = policy.memory_limit;
      memswap_limit = policy.memory_limit;
      cpu_quota = policy.cpu_quota;
      blkio_weight = 500;
      pids_limit = policy.max_processes;
    }

pub record NetworkSecurity : Type 0 where
  pub firewall_rules : Dict (List String)
  pub rate_limits : Dict String

unfoldable pub rules_for : String → String → List String
rules_for network_name session_type =
    ("ALLOW " ++ network_name ++ " -> " ++ network_name)
    ∷ (if str_eq session_type "preview"
        then "ALLOW OUT -> registry-1.docker.io" ∷ "ALLOW OUT -> index.docker.io"
          ∷ "ALLOW OUT -> npmjs.org" ∷ "ALLOW OUT -> pypi.org" ∷ "RATE_LIMIT OUT 100mbps"
          ∷ "DENY OUT -> *" ∷ []
        else "ALLOW OUT -> registry-1.docker.io" ∷ "ALLOW OUT -> index.docker.io"
          ∷ "RATE_LIMIT OUT 50mbps" ∷ "DENY OUT -> *" ∷ [])

unfoldable pub setup_firewall_rules :
    NetworkSecurity → String → String → NetworkSecurity × List String
unfolding rules_for
setup_firewall_rules n network_name session_type =
    let rules = rules_for network_name session_type in
    (record n { firewall_rules = put network_name rules n.firewall_rules }, rules)

unfoldable pub setup_rate_limit : NetworkSecurity → String → String → NetworkSecurity
setup_rate_limit n network_name rate_limit = record n {
  rate_limits = put network_name rate_limit n.rate_limits;
}
