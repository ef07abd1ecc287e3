-- ===== src/Ftp/Events/Control/Fits.antt =====
-- `process_control_events` of source/ftp.c and the buffers of the clients.
use ftpii.Os.{Os}
use ftpii.World.{World, Ftp}
use ftpii.Ftp.Sound.{Sound}
