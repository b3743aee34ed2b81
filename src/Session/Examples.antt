-- ===== src/Session/Examples.antt =====
-- The theorem on manager/session/session_impl.cpp at two calls in a cluster in memory.
use nmfs.Prelude.{[]}
use nmfs.Rados.Memory.{memory}
use nmfs.Session.Unique.{mounts, AreFresh, mounts-AreFresh}

mounts-AreFresh_example : AreFresh memory 5 (mounts memory 2 5 [])
mounts-AreFresh_example = mounts-AreFresh memory 2 5 []
