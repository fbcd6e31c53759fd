-- ===== src/Tools/Plan/Second/Window.antt =====
-- The text of PayloadWindowBackend, which Mram.Window models as a program.
use radsat_linux.Base.{Bytes, ◌++◌, codes}

abbrev pub window : Bytes
window =
    codes "\n"
    ++ codes "/// Restricts littlefs/payload access to `[0, payload_capacity)` so the high\n"
    ++ codes "/// MRAM region reserved for the U-Boot env blob cannot be overwritten.\n"
    ++ codes "pub struct PayloadWindowBackend {\n"
    ++ codes "    inner: Box<dyn ByteStorage>,\n"
    ++ codes "    payload_capacity: u32,\n"
    ++ codes "}\n"
    ++ codes "\n"
    ++ codes "impl PayloadWindowBackend {\n"
    ++ codes
        "    pub fn new(inner: Box<dyn ByteStorage>, payload_capacity: u32) -> Result<Self, BackendError> {\n"
    ++ codes "        if payload_capacity == 0 || payload_capacity > inner.capacity() {\n"
    ++ codes "            return Err(BackendError::InvalidConfig(format!(\n"
    ++ codes
        "                \"payload_capacity {payload_capacity} invalid for device capacity {}\",\n"
    ++ codes "                inner.capacity()\n"
    ++ codes "            )));\n"
    ++ codes "        }\n"
    ++ codes "        Ok(Self {\n"
    ++ codes "            inner,\n"
    ++ codes "            payload_capacity,\n"
    ++ codes "        })\n"
    ++ codes "    }\n"
    ++ codes "\n"
    ++ codes "    pub fn into_inner(self) -> Box<dyn ByteStorage> {\n"
    ++ codes "        self.inner\n"
    ++ codes "    }\n"
    ++ codes "\n"
    ++ codes "    pub fn inner_mut(&mut self) -> &mut dyn ByteStorage {\n"
    ++ codes "        self.inner.as_mut()\n"
    ++ codes "    }\n"
    ++ codes "}\n"
    ++ codes "\n"
    ++ codes "impl ByteStorage for PayloadWindowBackend {\n"
    ++ codes "    fn capacity(&self) -> u32 {\n"
    ++ codes "        self.payload_capacity\n"
    ++ codes "    }\n"
    ++ codes "\n"
    ++ codes "    fn read(&mut self, offset: u32, out: &mut [u8]) -> Result<(), BackendError> {\n"
    ++ codes
        "        let len_u32 = u32::try_from(out.len()).map_err(|_| BackendError::OutOfBounds {\n"
    ++ codes "            offset,\n"
    ++ codes "            len: out.len(),\n"
    ++ codes "            capacity: self.payload_capacity,\n"
    ++ codes "        })?;\n"
    ++ codes "        let end = offset\n"
    ++ codes "            .checked_add(len_u32)\n"
    ++ codes "            .ok_or(BackendError::OutOfBounds {\n"
    ++ codes "                offset,\n"
    ++ codes "                len: out.len(),\n"
    ++ codes "                capacity: self.payload_capacity,\n"
    ++ codes "            })?;\n"
    ++ codes "        if end > self.payload_capacity {\n"
    ++ codes "            return Err(BackendError::OutOfBounds {\n"
    ++ codes "                offset,\n"
    ++ codes "                len: out.len(),\n"
    ++ codes "                capacity: self.payload_capacity,\n"
    ++ codes "            });\n"
    ++ codes "        }\n"
    ++ codes "        self.inner.read(offset, out)\n"
    ++ codes "    }\n"
    ++ codes "\n"
    ++ codes "    fn write(&mut self, offset: u32, data: &[u8]) -> Result<(), BackendError> {\n"
    ++ codes
        "        let len_u32 = u32::try_from(data.len()).map_err(|_| BackendError::OutOfBounds {\n"
    ++ codes "            offset,\n"
    ++ codes "            len: data.len(),\n"
    ++ codes "            capacity: self.payload_capacity,\n"
    ++ codes "        })?;\n"
    ++ codes "        let end = offset\n"
    ++ codes "            .checked_add(len_u32)\n"
    ++ codes "            .ok_or(BackendError::OutOfBounds {\n"
    ++ codes "                offset,\n"
    ++ codes "                len: data.len(),\n"
    ++ codes "                capacity: self.payload_capacity,\n"
    ++ codes "            })?;\n"
    ++ codes "        if end > self.payload_capacity {\n"
    ++ codes "            return Err(BackendError::OutOfBounds {\n"
    ++ codes "                offset,\n"
    ++ codes "                len: data.len(),\n"
    ++ codes "                capacity: self.payload_capacity,\n"
    ++ codes "            });\n"
    ++ codes "        }\n"
    ++ codes "        self.inner.write(offset, data)\n"
    ++ codes "    }\n"
    ++ codes "}\n"
