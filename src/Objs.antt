-- ===== src/Objs.antt =====
-- objs/: the objects that policies refer to.
pub mod Tags
pub mod Addr
pub mod Srvc
pub mod Addrgrp
pub mod Srvcgrp
pub mod AppGroup
mod Tests
