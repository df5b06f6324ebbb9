-- ===== src/Nbd/Layout.antt =====
-- The layouts and numbers of linux/nbd.h on a machine with its numbers the little end first, and a
-- kernel whose calls all succeed; for the tests.
use greencloud.Base.{ℕ, ◌/◌, ◌%◌, [], ◌∷◌, ◌++◌, Bytes, some, peek, take}
use greencloud.Nbd.Order.{little}
use greencloud.Nbd.Driver.{Protocol}
use greencloud.Nbd.Device.{Kernel}

abbrev word : ℕ → Bytes
word n = (n % 256) ∷ (n / 256 % 256) ∷ (n / 65536 % 256) ∷ (n / 16777216 % 256) ∷ []

abbrev pub nbd : Protocol
nbd = record {
  request_size = 28;
  request = λ b. record {
    magic = little (take 4 b);
    type = little (peek b 4 4);
    handle = peek b 8 8;
    from = little (peek b 16 8);
    len = little (peek b 24 4);
  };
  reply = λ r. word r.magic ++ word r.error ++ r.handle;
  request_magic = 0x25609513;
  reply_magic = 0x67446698;
  cmd_read = 0;
  cmd_write = 1;
  cmd_disc = 2;
  cmd_flush = 3;
  cmd_trim = 4;
}

abbrev pub kernel : Kernel
kernel = record {
  socketpair = some (5, 6);
  open_device = some 7;
  ioctl = λ fd request flags. 0;
  set_sock = 43776;
  set_blksize = 43777;
  set_size_blocks = 43783;
  set_flags = 43786;
  do_it = 43779;
  clear_que = 43781;
  clear_sock = 43780;
  nbd_disconnect = 43784;
  send_flags = 36;
}
