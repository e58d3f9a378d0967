-- ===== src/Ctlogic/Whole.antt =====
-- ctserver/src/ctlogicprocess.c: a file that holds one command line is handed to the client.
use carrots.Mfile.{Mfile}
