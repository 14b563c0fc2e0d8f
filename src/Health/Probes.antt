-- ===== src/Health/Probes.antt =====
-- The `_check` methods of src/services/health.py. What a dependency answers is an argument, with the
-- text of an exception. A gigabyte is 1024 ^ 3 bytes, the minimum of free space a whole number of
-- them; `show_gb` writes the gigabytes of some bytes, `show_minimum` that number.
use Prim.Native.String.{◌++◌}
use disposable_compute_platf.Prelude.{ℕ, ◌*◌, String, Option, none, some, ltb, if◌then◌else◌}
use disposable_compute_platf.Health.{healthy, degraded, unhealthy, unknown, HealthCheck}

-- What a call of a dependency gives: none when it works, or the text of its exception.
abbrev pub Called : Type 0
Called = Option String

-- `DockerHealthChecker._check`: the ping, then the info.
unfoldable pub docker_check : Called → Called → HealthCheck
docker_check (some e) info = record {
  name = "docker";
  status = unhealthy;
  message = "Docker daemon not accessible: " ++ e;
}
docker_check none (some e) = record {
  name = "docker";
  status = unhealthy;
  message = "Docker daemon not accessible: " ++ e;
}
docker_check none none = record {
  name = "docker";
  status = healthy;
  message = "Docker daemon is running";
}

-- A database is not configured, of a kind that is not known, or asked.
pub data Database : Type 0 where
  not_configured unknown_interface : Database
  queried : Called → Database

unfoldable pub database_check : Database → HealthCheck
database_check not_configured = record {
  name = "database";
  status = unknown;
  message = "Database not configured";
}
database_check unknown_interface = record {
  name = "database";
  status = unknown;
  message = "Unknown database interface";
}
database_check (queried none) = record {
  name = "database";
  status = healthy;
  message = "Database connection healthy";
}
database_check (queried (some e)) = record {
  name = "database";
  status = unhealthy;
  message = "Database connection count_failure: " ++ e;
}

-- The client, if there is one: its ping, then its info.
unfoldable pub redis_check : Option (Called × Called) → HealthCheck
redis_check none = record { name = "redis"; status = unknown; message = "Redis not configured" }
redis_check (some (some e, info)) = record {
  name = "redis";
  status = unhealthy;
  message = "Redis connection count_failure: " ++ e;
}
redis_check (some (none, some e)) = record {
  name = "redis";
  status = unhealthy;
  message = "Redis connection count_failure: " ++ e;
}
redis_check (some (none, none)) = record {
  name = "redis";
  status = healthy;
  message = "Redis connection healthy";
}

-- What the file system says of the path: missing, an exception, or the free bytes.
pub data Disk : Type 0 where
  missing_path : Disk
  unreadable : String → Disk
  free_bytes : ℕ → Disk

unfoldable pub storage_check : (ℕ → String) → (ℕ → String) → String → ℕ → Disk → HealthCheck
storage_check show_gb show_minimum path min_free_gb missing_path = record {
  name = "storage";
  status = unhealthy;
  message = "Storage path does not exist: " ++ path;
}
storage_check show_gb show_minimum path min_free_gb (unreadable e) = record {
  name = "storage";
  status = unhealthy;
  message = "Storage check count_failure: " ++ e;
}
storage_check show_gb show_minimum path min_free_gb (free_bytes free) =
    if ltb free (min_free_gb * 1073741824)
    then record {
      name = "storage";
      status = degraded;
      message =
          "Low disk space: "
          ++ show_gb free
          ++ "GB free (minimum: "
          ++ show_minimum min_free_gb
          ++ "GB)";
    }
    else record {
      name = "storage";
      status = healthy;
      message = "Storage healthy: " ++ show_gb free ++ "GB free";
    }

unfoldable pub api_check : HealthCheck
api_check = record { name = "api"; status = healthy; message = "API is responding" }

unfoldable pub network_check : Called → HealthCheck
network_check none = record {
  name = "network";
  status = healthy;
  message = "Network connectivity healthy";
}
network_check (some e) = record {
  name = "network";
  status = unhealthy;
  message = "Network connectivity issue: " ++ e;
}
