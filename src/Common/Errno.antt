-- ===== src/Common/Errno.antt =====
-- The error numbers of `include/errno.h` that the modelled code sets.
pub data Errno : Type 0 where
  eperm enoent eio ebadf enomem eacces ebusy eexist enotdir eisdir einval emfile erofs : Errno
  epipe erange edeadlk enametoolong enolck enotempty e2big enotsup etimedout : Errno
