-- ===== src/Probe/Tests.antt =====
-- A host with namespaces and no KVM, and a kernel's version.
use zeptocapsule.Common.{true, false, ◌&&◌, none}
use zeptocapsule.Probe.{HostCapabilities, x86_64, is_some, max_supported}
use zeptocapsule.Probe.Supported.{IsMax, max_supported-IsMax}

abbrev caps : HostCapabilities
caps = record {
  kernel_version = (6, 1, 90);
  arch = x86_64;
  user_namespaces = true;
  cgroup_v2 = true;
  seccomp_filter = false;
  kvm = true;
  firecracker_bin = none;
}

max_supported-IsMax_example :
    IsMax (caps.kvm && is_some caps.firecracker_bin) true true false (max_supported caps)
max_supported-IsMax_example = max_supported-IsMax caps
