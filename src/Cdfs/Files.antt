-- ===== src/Cdfs/Files.antt =====
-- bootmgr/vfs/cdfs.c on bootmgr/vfs/atapi.c: reading a file of the disk.
